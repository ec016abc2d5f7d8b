-- ===== src/Game/Player/Damage.antt =====
-- How damage is shared between armour and health.
use spaghettimod.Prelude.{
  ℕ, ◌-◌, ◌/◌, ◌^◌, ◌<◌, ◌⊎◌, some, ltb, true, if◌then◌else◌, ◌+◌, ◌*◌, ◌≤◌, ◌≡◌, ◌≢◌, arith,
  length, none, refl, ap, get_elem?-past,
}
use spaghettimod.Prelude.Int.{ℤ, pos, ◌-ℤ◌, ◌+ℤ◌, eqb_ℤ_iff}
use spaghettimod.Game.Items.{numguns}
use spaghettimod.Game.Player.{FpsState, Armour, blue, green, yellow, armour_code, dodamage, hasammo}

-- `t` is what `s` is after the damage, of which `through` got through to the health. Armour and
-- health together lose exactly the damage, and the armour loses its share of a quarter, half or
-- three quarters by its colour, rounded down, or all that was left of it where that is less.
pub record Shares (s t : FpsState) (damage through : ℕ) : Type 0 where
  pub conserved : t.armour + damage ≡ s.armour + through
  pub at_most_all : through ≤ damage
  pub at_most_share : 4 * damage ≤ 4 * through + damage * (armour_code s.armourtype + 1)
  pub whole_share :
      (t.armour ≡ 0) ⊎ (damage * (armour_code s.armourtype + 1) < 4 * (damage - through) + 4)
  pub from_health : t.health +ℤ pos through ≡ s.health

-- Whatever the player, a damage of which 75 times fits an int ends `dodamage`, which shares it
-- between armour and health as `Shares` says: they lose it together, and armour its part of it, or
-- all that is left of it where that is less.
pub dodamage-Shares :
    (s : FpsState) (damage : ℕ)
    → damage * 75 < 2 ^ 31
    → (t : FpsState) × (through : ℕ) × (dodamage s damage ≡ some (t, through))
      × Shares s t damage through
unfolding dodamage ◌-ℤ◌ ◌+ℤ◌
dodamage-Shares s damage fits = (
  record s { armour = s.armour - ad; health = s.health -ℤ pos (damage - ad) },
  damage - ad,
  some_result,
  shared s.armourtype refl,
)
  where
    share : ℕ
    share = damage * (armour_code s.armourtype + 1) * 25 / 100

    ad : ℕ
    ad = if ltb s.armour share then s.armour else share

    no_overflow :
        (a : Armour)
        → s.armourtype ≡ a
        → ltb (damage * (armour_code s.armourtype + 1) * 25) (2 ^ 31) ≡ true
    no_overflow blue e = ground (arith, ap armour_code e)
    no_overflow green e = ground (arith, ap armour_code e)
    no_overflow yellow e = ground (arith, ap armour_code e)

    some_result :
        dodamage s damage
        ≡ some (
          record s { armour = s.armour - ad; health = s.health -ℤ pos (damage - ad) },
          damage - ad,
        )
    some_result = rw (no_overflow s.armourtype refl) refl

    shared :
        (a : Armour)
        → s.armourtype ≡ a
        → Shares s
            (record s { armour = s.armour - ad; health = s.health -ℤ pos (damage - ad) })
            damage
            (damage - ad)
    shared blue e = ground (arith, ap armour_code e)
    shared green e = ground (arith, ap armour_code e)
    shared yellow e = ground (arith, ap armour_code e)

-- With an array of NUMGUNS numbers, `hasammo` reads past its end for the gun NUMGUNS, where that is
-- not the excluded one.
pub hasammo_past_end :
    (s : FpsState) (exclude : ℤ)
    → length s.ammo ≡ numguns
    → exclude ≢ pos numguns
    → hasammo s (pos numguns) exclude ≡ none
unfolding hasammo
hasammo_past_end s exclude e h =
    ground (arith, get_elem?-past s.ammo numguns, eqb_ℤ_iff (pos numguns) exclude)
