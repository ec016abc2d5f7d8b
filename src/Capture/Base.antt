-- ===== src/Capture/Base.antt =====
-- `baseinfo` of fpsgame/capture.h. Counters do not fall below zero: each is tested before it falls.
pub mod Invariant
use Prim.Native.Nat.{min}
use mathlib.Core.Bool.{not}
use spaghettimod.Prelude.{
  ℕ, suc, ◌+◌, ◌-◌, Bool, true, false, ◌&&◌, ◌||◌, [], ltb, leb, ◌==◌, if◌then◌else◌,
}
use spaghettimod.Prelude.Int.{ℤ, pos, negsuc, ◌+ℤ◌, ltb_ℤ, leb_ℤ}
use spaghettimod.Game.Items.{i_shells, i_cartridges}
use spaghettimod.Game.Names.{Name, same_name, nonempty, copystring, max_str_len}
use spaghettimod.Game.Geometry.{Floats, Vec, origin}

abbrev pub occupyenemylimit : ℕ
occupyenemylimit = 28

abbrev pub occupyneutrallimit : ℕ
occupyneutrallimit = 14

-- The conversion that takes a base from its owner, or gives it to one.
abbrev pub conversion_limit : Name → ℕ
conversion_limit owner = if nonempty owner then occupyenemylimit else occupyneutrallimit

abbrev pub maxammo : ℕ
maxammo = 5

-- An empty name is no team. Bases that an entity gives a negative number share their ammunition
-- type: the number is `ammogroup`, else 0.
pub record BaseInfo (F : Type 0) : Type 0 where
  pub o : Vec F
  pub owner : Name
  pub enemy : Name
  pub ammogroup : ℤ
  pub ammotype : ℕ
  pub tag : ℤ
  pub ammo : ℕ
  pub owners : ℕ
  pub enemies : ℕ
  pub converted : ℤ
  pub capturetime : ℤ

module _ {F : Type 0} where
  -- A base as `reset` leaves it.
  abbrev pub new_base : Floats F → BaseInfo F
  new_base fl = record {
    o = origin fl;
    owner = [];
    enemy = [];
    ammogroup = pos 0;
    ammotype = 0;
    tag = negsuc 0;
    ammo = 0;
    owners = 0;
    enemies = 0;
    converted = pos 0;
    capturetime = negsuc 0;
  }

  unfoldable pub valid : BaseInfo F → Bool
  valid b = ltb 0 b.ammotype && leb b.ammotype (i_cartridges - i_shells + 1)

  abbrev pub noenemy : BaseInfo F → BaseInfo F
  noenemy b = record b { enemy = []; enemies = 0; converted = pos 0 }

  unfoldable pub enter : Name → BaseInfo F → Bool × BaseInfo F
  enter team b =
      let challenged =
        if same_name b.enemy team
        then b
        else record b { converted = pos 0; enemy = copystring max_str_len team } in
      if same_name b.owner team
      then (false, record b { owners = b.owners + 1 })
      else if b.enemies == 0
      then (true, record challenged { enemies = b.enemies + 1 })
      else if same_name b.enemy team
      then (false, record b { enemies = b.enemies + 1 })
      else (false, b)

  unfoldable pub steal : Name → BaseInfo F → Bool
  steal team b = b.enemies == 0 && not (same_name b.owner team)

  unfoldable pub leave : Name → BaseInfo F → Bool × BaseInfo F
  leave team b =
      if same_name b.owner team && ltb 0 b.owners
      then (false, record b { owners = b.owners - 1 })
      else if not (same_name b.enemy team) || b.enemies == 0
      then (false, b)
      else (b.enemies - 1 == 0, record b { enemies = b.enemies - 1 })

  unfoldable pub occupy : Name → ℤ → BaseInfo F → ℤ × BaseInfo F
  occupy team units b =
      let c = b.converted +ℤ units in
      let counted = record b { converted = c } in
      if not (same_name b.enemy team)
      then (negsuc 0, b)
      else if ltb_ℤ units (pos 0)
      then (negsuc 0, if leb_ℤ c (pos 0) then noenemy counted else counted)
      else if ltb_ℤ c (pos (conversion_limit b.owner))
      then (negsuc 0, counted)
      else if nonempty b.owner
      then (
        pos 0,
        record counted { owner = []; converted = pos 0; enemy = copystring max_str_len team },
      )
      else (
        pos 1,
        noenemy (record counted {
          owner = copystring max_str_len team;
          ammo = 0;
          capturetime = pos 0;
          owners = b.enemies;
        }),
      )

  unfoldable pub addammo : ℕ → BaseInfo F → Bool × BaseInfo F
  addammo i b =
      if leb maxammo b.ammo
      then (false, b)
      else (true, record b { ammo = min (b.ammo + i) maxammo })

  unfoldable pub takeammo : Name → BaseInfo F → Bool × BaseInfo F
  takeammo team b =
      if not (same_name b.owner team) || b.ammo == 0
      then (false, b)
      else (true, record b { ammo = b.ammo - 1 })
