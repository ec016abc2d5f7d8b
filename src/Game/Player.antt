-- ===== src/Game/Player.antt =====
-- `fpsstate` of fpsgame/game.h: health, armour, ammunition, and what changes them.
-- Health may fall below zero, so it is an integer; `A_BLUE`, `A_GREEN`, `A_YELLOW` are the only
-- armour types. `ammo` holds NUMGUNS numbers.
pub mod Damage
pub mod Pickup
pub mod Spawn
use Prim.Native.Nat.{min}
use mathlib.Core.Bool.{not}
use spaghettimod.Prelude.{
  ℕ, ◌^◌, zero, suc, ◌+◌, ◌-◌, ◌*◌, ◌/◌, Bool, true, false, ◌&&◌, ◌||◌, List, Option, none, some,
  ltb, leb, ◌==◌, if◌then◌else◌, get_or, get_elem?, set, replicate,
}
use spaghettimod.Prelude.Int.{ℤ, pos, negsuc, ◌-ℤ◌, ◌+ℤ◌, ltb_ℤ, leb_ℤ, eqb_ℤ}
use spaghettimod.Game.Items.{
  ItemStat, item_stat, i_shells, i_health, i_boost, i_greenarmour, i_yellowarmour, i_quad, gun_fist,
  gun_sg, gun_pistol, numguns,
}

pub data Armour : Type 0 where
  blue green yellow : Armour

-- The number of an armour type.
abbrev pub armour_code : Armour → ℕ
armour_code blue = 0
armour_code green = 1
armour_code yellow = 2

-- The armour type of an item's `info`.
abbrev pub armour_of : ℤ → Armour
armour_of (pos zero) = blue
armour_of (pos (suc zero)) = green
armour_of (pos (suc (suc n))) = yellow
armour_of (negsuc n) = blue

abbrev pub is_yellow : Armour → Bool
is_yellow yellow = true
is_yellow _ = false

abbrev pub is_blue : Armour → Bool
is_blue blue = true
is_blue _ = false

pub record FpsState : Type 0 where
  pub health : ℤ
  pub maxhealth : ℕ
  pub armour : ℕ
  pub armourtype : Armour
  pub quadmillis : ℕ
  pub gunselect : ℕ
  pub gunwait : ℕ
  pub ammo : List ℕ

abbrev pub min_ℤ : ℤ → ℤ → ℤ
min_ℤ a b = if ltb_ℤ a b then a else b

-- `ammo[gun]`
abbrev pub ammo_of : FpsState → ℕ → ℕ
ammo_of s gun = get_or s.ammo gun 0

abbrev pub set_ammo : FpsState → ℕ → ℕ → FpsState
set_ammo s gun n = record s { ammo = set s.ammo gun n }

pub baseammo : FpsState → ℕ → ℕ → ℕ → FpsState
baseammo s gun k scale = set_ammo s gun ((item_stat (gun - gun_sg)).add * k / scale)

pub addammo : FpsState → ℕ → ℕ → ℕ → FpsState
addammo s gun k scale =
    let is = item_stat (gun - gun_sg) in
    set_ammo s gun (min (ammo_of s gun + is.add * k / scale) is.max)

pub hasmaxammo : FpsState → ℕ → Bool
hasmaxammo s type =
    let is = item_stat (type - i_shells) in leb is.max (ammo_of s (type - i_shells + gun_sg))

-- The gun of an ammunition item.
abbrev pub info_gun : ℤ → ℕ
info_gun (pos g) = g
info_gun (negsuc n) = 0

unfoldable pub canpickup : FpsState → ℕ → Bool
canpickup s type =
    let is = item_stat (type - i_shells) in
    let armour_case = is_blue s.armourtype || ltb s.armour is.max in
    if ltb type i_shells || ltb i_quad type
    then false
    else if type == i_boost
    then ltb s.maxhealth is.max || ltb_ℤ s.health (pos s.maxhealth)
    else if type == i_health
    then ltb_ℤ s.health (pos s.maxhealth)
    else if type == i_greenarmour
    then (if is_yellow s.armourtype && leb 100 s.armour then false else armour_case)
    else if type == i_yellowarmour
    then armour_case
    else if type == i_quad
    then ltb s.quadmillis is.max
    else ltb (ammo_of s (info_gun is.info)) is.max

-- The cases of `pickup`.
abbrev pub add_health : FpsState → ℕ → FpsState
add_health s add = record s { health = min_ℤ (s.health +ℤ pos add) (pos s.maxhealth) }

abbrev pub add_maxhealth : FpsState → ItemStat → FpsState
add_maxhealth s is = record s { maxhealth = min (s.maxhealth + info_gun is.info) is.max }

abbrev pub add_armour : FpsState → ItemStat → FpsState
add_armour s is = record s {
  armour = min (s.armour + is.add) is.max;
  armourtype = armour_of is.info;
}

abbrev pub add_quad : FpsState → ItemStat → FpsState
add_quad s is = record s { quadmillis = min (s.quadmillis + is.add) is.max }

abbrev pub add_item_ammo : FpsState → ItemStat → FpsState
add_item_ammo s is =
    let gun = info_gun is.info in set_ammo s gun (min (ammo_of s gun + is.add) is.max)

pub pickup : FpsState → ℕ → FpsState
unfolding ◌+ℤ◌
pickup s type =
    let is = item_stat (type - i_shells) in
    if ltb type i_shells || ltb i_quad type
    then s
    else if type == i_boost
    then add_health (add_maxhealth s is) is.add
    else if type == i_health
    then add_health s is.add
    else if type == i_greenarmour || type == i_yellowarmour
    then add_armour s is
    else (if type == i_quad then add_quad s is else add_item_ammo s is)

pub respawn : FpsState → FpsState
respawn s = record {
  health = pos 100;
  maxhealth = 100;
  armour = 0;
  armourtype = blue;
  quadmillis = 0;
  gunselect = gun_pistol;
  gunwait = 0;
  ammo = set (replicate numguns 0) gun_fist 1;
}

-- The new state and the damage that got through; `none` where the product overflows an int. The
-- armour takes at most three quarters of the damage, so `damage - ad` does not stop at 0.
pub dodamage : FpsState → ℕ → Option (FpsState × ℕ)
unfolding ◌-ℤ◌
dodamage s damage =
    let product = damage * (armour_code s.armourtype + 1) * 25 in
    let share = product / 100 in
    let ad = if ltb s.armour share then s.armour else share in
    if ltb product (2 ^ 31)
    then some
        (record s { armour = s.armour - ad; health = s.health -ℤ pos (damage - ad) }, damage - ad)
    else none

-- `ammo[gun]` is read at `gun <= NUMGUNS`; `none` is the read past the array.
pub hasammo : FpsState → ℤ → ℤ → Option Bool
hasammo s (negsuc n) exclude = some false
hasammo s (pos gun) exclude =
    if leb gun numguns && not (eqb_ℤ (pos gun) exclude)
    then elim (get_elem? s.ammo gun) [ none ↦ none | some n ↦ some (ltb 0 n) ]
    else some false
