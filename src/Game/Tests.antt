-- ===== src/Game/Tests.antt =====
-- The theorems of the players and the modes at concrete values.
use spaghettimod.Prelude.{some, ℕ, ◌≡◌, ◌≢◌, refl, arith, none, true}
use spaghettimod.Prelude.Int.{pos}
use spaghettimod.Game.Items.{numguns, i_health}
use spaghettimod.Game.Modes.{m_valid}
use spaghettimod.Game.Modes.Laws.{Exclusive, objectives_exclude}
use spaghettimod.Game.Random.{rnd}
use spaghettimod.Game.Player.{FpsState, dodamage, hasammo, pickup, canpickup}
use spaghettimod.Game.Player.Damage.{Shares, dodamage-Shares, hasammo_past_end}
use spaghettimod.Game.Player.Pickup.{IsValid, NoLoss, pickup-NoLoss}
use spaghettimod.Game.Player.Spawn.Armed.{Spawns, later, spawnstate-IsArmed}
use spaghettimod.Game.Samples.{hurt, counting}

dodamage-Shares_example :
    (t : FpsState) × (through : ℕ) × (dodamage hurt 30 ≡ some (t, through))
    × Shares hurt t 30 through
dodamage-Shares_example = dodamage-Shares hurt 30 (omega arith)

hurt-IsValid : IsValid hurt
hurt-IsValid = record {
  health_bound = omega arith;
  maxhealth_bound = omega arith;
  armour_bound = omega arith;
  blue_bound = λ e. omega arith;
  quad_bound = omega arith;
  guns = refl;
}

can_heal : canpickup hurt i_health ≡ true
unfolding canpickup
can_heal = refl

pickup-NoLoss_example : NoLoss hurt (pickup hurt i_health)
pickup-NoLoss_example = pickup-NoLoss hurt i_health hurt-IsValid can_heal

second_gun : (rnd 5 (later 0 (rnd 5 counting).1)).0 ≢ (rnd 5 counting).0
unfolding rnd
second_gun e = absurd (omega (arith, e))

-- The tactics modes are 7 and 8.
spawnstate-IsArmed_example : Spawns 3 (pos 7) true hurt counting
spawnstate-IsArmed_example =
    spawnstate-IsArmed 3 0 (pos 7) true hurt counting (omega arith) second_gun

another_gun : pos 0 ≢ pos numguns
another_gun e = cc

hasammo_past_end_example : hasammo hurt (pos numguns) (pos 0) ≡ none
hasammo_past_end_example = hasammo_past_end hurt (pos 0) refl another_gun

hold_valid : m_valid (pos 15) ≡ true
unfolding m_valid
hold_valid = refl

objectives_exclude_example : Exclusive (pos 15)
objectives_exclude_example = objectives_exclude (pos 15) hold_valid
