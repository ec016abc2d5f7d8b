-- ===== src/Game/Items.antt =====
-- Item types, `itemstats` and the gun numbers of fpsgame/game.h.
use spaghettimod.Prelude.{ℕ, List, [], ◌∷◌, get_or}
use spaghettimod.Prelude.Int.{ℤ, pos, negsuc}

-- The `I_...` numbers among the entity types, which start at 8.
abbrev pub i_shells : ℕ
i_shells = 8

abbrev pub i_grenades : ℕ
i_grenades = 12

abbrev pub i_cartridges : ℕ
i_cartridges = 13

abbrev pub i_health : ℕ
i_health = 14

abbrev pub i_boost : ℕ
i_boost = 15

abbrev pub i_greenarmour : ℕ
i_greenarmour = 16

abbrev pub i_yellowarmour : ℕ
i_yellowarmour = 17

abbrev pub i_quad : ℕ
i_quad = 18

-- The map entities that the flag and base modes read.
abbrev pub ent_base : ℕ
ent_base = 24

abbrev pub ent_flag : ℕ
ent_flag = 30

-- The `GUN_...` numbers.
abbrev pub gun_fist : ℕ
gun_fist = 0

abbrev pub gun_sg : ℕ
gun_sg = 1

abbrev pub gun_cg : ℕ
gun_cg = 2

abbrev pub gun_rifle : ℕ
gun_rifle = 4

abbrev pub gun_gl : ℕ
gun_gl = 5

abbrev pub gun_pistol : ℕ
gun_pistol = 6

abbrev pub numguns : ℕ
numguns = 12

-- A row of `itemstats`, without its sound, name and icon. `info` is a gun, an armour type, the
-- health that a boost adds to the limit, or -1.
pub record ItemStat : Type 0 where
  pub add : ℕ
  pub max : ℕ
  pub info : ℤ

abbrev stat : ℕ → ℕ → ℤ → ItemStat
stat a m i = record { add = a; max = m; info = i }

abbrev pub itemstats : List ItemStat
itemstats =
    stat 10 30 (pos 1)
    ∷ stat 20 60 (pos 2)
    ∷ stat 5 15 (pos 3)
    ∷ stat 5 15 (pos 4)
    ∷ stat 10 30 (pos 5)
    ∷ stat 30 120 (pos 6)
    ∷ stat 25 100 (negsuc 0)
    ∷ stat 100 200 (pos 50)
    ∷ stat 100 100 (pos 1)
    ∷ stat 200 200 (pos 2)
    ∷ stat 20000 30000 (negsuc 0)
    ∷ []

-- `itemstats[i]`; the callers stay below its length.
abbrev pub item_stat : ℕ → ItemStat
item_stat i = get_or itemstats i (stat 0 0 (negsuc 0))
