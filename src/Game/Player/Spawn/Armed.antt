-- ===== src/Game/Player/Spawn/Armed.antt =====
-- Whatever the mode, a player spawns within the limits and with a loaded gun in hand.
use mathlib.Core.Bool.{not}
use spaghettimod.Prelude.{
  ap, ℕ, zero, suc, ◌+◌, ◌<◌, ◌≡◌, ◌≢◌, refl, Bool, true, false, ◌&&◌, ◌||◌, some, arith, length,
  ltb, leb, ◌==◌, if◌then◌else◌, Bool-cases, inl, inr,
}
use spaghettimod.Prelude.Bits.{every_below, every_below→}
use spaghettimod.Prelude.Int.{ℤ, pos, leb_ℤ}
use spaghettimod.Game.Items.{numguns, gun_pistol, gun_fist, gun_rifle}
use spaghettimod.Game.Random.{Rng, rnd, rnd-lt}
use spaghettimod.Game.Player.{FpsState, respawn, is_blue, ammo_of, set_ammo}
use spaghettimod.Game.Player.Pickup.{IsValid}
use spaghettimod.Game.Player.Spawn.{
  other_gun, tactics_guns, efficiency_guns, spawnstate, with_gun, pistol_start, no_armour_start,
}
use spaghettimod.Game.Modes.{
  m_demo, m_insta, m_regencapture, m_tactics, m_noitems, m_efficiency, m_ctf, m_collect, m_sp,
  m_dmsp,
}

-- Within the limits of the items, and the selected gun can be fired.
pub record IsArmed (s : FpsState) : Type 0 where
  pub valid : IsValid s
  pub loaded : 0 < ammo_of s s.gunselect

-- The same as a test.
abbrev armed : FpsState → Bool
armed s =
    leb_ℤ s.health (pos s.maxhealth)
    && leb s.maxhealth 200
    && leb s.armour 200
    && (leb s.armour 100 || not (is_blue s.armourtype))
    && leb s.quadmillis 30000
    && length s.ammo == numguns
    && ltb 0 (ammo_of s s.gunselect)

armed-IsArmed : (s : FpsState) → armed s ≡ true → IsArmed s
armed-IsArmed s h = record {
  valid = record {
    health_bound = ground arith;
    maxhealth_bound = ground arith;
    armour_bound = ground arith;
    blue_bound = λ e. ground (arith, ap is_blue e);
    quad_bound = ground arith;
    guns = ground arith;
  };
  loaded = ground arith;
}

-- Every pair of guns that can be drawn.
tactics_table :
    (no_items : Bool) (s : FpsState)
    → every_below 5
        (λ i. every_below 5 (λ j. armed (tactics_guns no_items (i + 1) (j + 1) (respawn s))))
      ≡ true
unfolding every_below tactics_guns respawn
tactics_table true s = refl
tactics_table false s = refl

tactics_armed :
    (no_items : Bool) (s : FpsState) (i j : ℕ)
    → i < 5
    → j < 5
    → armed (tactics_guns no_items (i + 1) (j + 1) (respawn s)) ≡ true
tactics_armed no_items s i j hi hj =
    every_below→ 5 (λ k. armed (tactics_guns no_items (i + 1) (k + 1) (respawn s))) j
      (every_below→ 5
        (λ i. every_below 5 (λ j. armed (tactics_guns no_items (i + 1) (j + 1) (respawn s)))) i
        (tactics_table no_items s) hi)
      hj

-- The generator after `k` draws.
abbrev pub later : ℕ → Rng → Rng
later zero r = r
later (suc k) r = later k (rnd 5 r).1

-- The loop ends as soon as another gun is drawn.
other_gun_found :
    (fuel k g : ℕ) (r : Rng)
    → k < fuel
    → (rnd 5 (later k r)).0 + 1 ≢ g
    → (j : ℕ) × (r' : Rng) × (other_gun fuel g r ≡ some (j + 1, r')) × (j < 5) × (j + 1 ≢ g)
unfolding other_gun
other_gun_found zero k g r h d = elim h [ ]
other_gun_found (suc fuel) zero g r h d =
    ((rnd 5 r).0, (rnd 5 r).1, ground arith, rnd-lt 5 r (omega arith), d)
other_gun_found (suc fuel) (suc k) g r h d = elim (Bool-cases (g == (rnd 5 r).0 + 1)) [
  | inl same ↦ rw same (other_gun_found fuel k g (rnd 5 r).1 (omega arith) d)
  | inr other ↦ ((rnd 5 r).0, (rnd 5 r).1, rw other, rnd-lt 5 r (omega arith), ground arith)
]

regen_armed :
    (blue : Bool) (s : FpsState)
    → armed (
        with_gun gun_pistol
          (if blue then pistol_start 25 40 (respawn s) else no_armour_start 40 (respawn s)))
      ≡ true
unfolding respawn
regen_armed true s = refl
regen_armed false s = refl

sp_armed :
    (dmsp : Bool) (s : FpsState)
    → armed (if dmsp then pistol_start 25 80 (respawn s) else no_armour_start 80 (respawn s)) ≡ true
unfolding respawn
sp_armed true s = refl
sp_armed false s = refl

-- What `spawnstate` returns, and that it does.
abbrev pub Spawns : ℕ → ℤ → Bool → FpsState → Rng → Type 0
Spawns fuel gamemode blue s r =
    (t : FpsState) × (r' : Rng) × (spawnstate fuel gamemode blue (respawn s) r ≡ some (t, r'))
    × IsArmed t

-- A result that passes the test.
spawns :
    (fuel : ℕ) (gamemode : ℤ) (blue : Bool) (s : FpsState) (r : Rng) (t : FpsState) (r' : Rng)
    → spawnstate fuel gamemode blue (respawn s) r ≡ some (t, r')
    → armed t ≡ true
    → Spawns fuel gamemode blue s r
spawns fuel gamemode blue s r t r' e a = (t, r', e, armed-IsArmed t a)

-- In every mode, when among the draws that the fuel allows one differs from the first (the tactics
-- modes draw a second gun until it does), a respawned player gets a state: it is within the limits
-- of the items, and the selected gun has ammunition.
pub spawnstate-IsArmed :
    (fuel k : ℕ) (gamemode : ℤ) (regenbluearmour : Bool) (s : FpsState) (r : Rng)
    → k < fuel
    → (rnd 5 (later k (rnd 5 r).1)).0 ≢ (rnd 5 r).0
    → Spawns fuel gamemode regenbluearmour s r
unfolding spawnstate efficiency_guns respawn
spawnstate-IsArmed fuel k m blue s r h d = elim (Bool-cases (m_demo m)) [
  | inl e0 ↦ spawns fuel m blue s r (with_gun gun_fist (respawn s)) r (rw e0) refl
  | inr e0 ↦ elim (Bool-cases (m_insta m)) [
    | inl e1 ↦ spawns fuel m blue s r insta r (rw (e0, e1)) refl
    | inr e1 ↦ elim (Bool-cases (m_regencapture m)) [
      | inl e2 ↦
          spawns fuel m blue s r
            (with_gun gun_pistol
              (if blue then pistol_start 25 40 (respawn s) else no_armour_start 40 (respawn s)))
            r (rw (e0, e1, e2)) (regen_armed blue s)
      | inr e2 ↦ elim (Bool-cases (m_tactics m)) [
        | inl e3 ↦
            let (j, r', e, hj, ne) =
              other_gun_found fuel k ((rnd 5 r).0 + 1) (rnd 5 r).1 h (omega arith) in
            spawns fuel m blue s r
              (tactics_guns (m_noitems m) ((rnd 5 r).0 + 1) (j + 1) (respawn s)) r'
              (rw (e0, e1, e2, e3, e))
              (tactics_armed (m_noitems m) s (rnd 5 r).0 j (rnd-lt 5 r (omega arith)) hj)
        | inr e3 ↦ elim (Bool-cases (m_efficiency m)) [
          | inl e4 ↦
              spawns fuel m blue s r (efficiency_guns (respawn s)) r (rw (e0, e1, e2, e3, e4)) refl
          | inr e4 ↦ elim (Bool-cases (m_ctf m || m_collect m)) [
            | inl e5 ↦
                spawns fuel m blue s r (pistol_start 50 40 (respawn s)) r
                  (rw (e0, e1, e2, e3, e4, e5)) refl
            | inr e5 ↦ elim (Bool-cases (m_sp m)) [
              | inl e6 ↦
                  spawns fuel m blue s r
                    (if m_dmsp m
                      then pistol_start 25 80 (respawn s)
                      else no_armour_start 80 (respawn s))
                    r (rw (e0, e1, e2, e3, e4, e5, e6)) (sp_armed (m_dmsp m) s)
              | inr e6 ↦
                  spawns fuel m blue s r (pistol_start 25 40 (respawn s)) r
                    (rw (e0, e1, e2, e3, e4, e5, e6)) refl
            ]
          ]
        ]
      ]
    ]
  ]
]
  where
    insta : FpsState
    insta = record (set_ammo (respawn s) gun_rifle 100) {
      armour = 0;
      health = pos 1;
      gunselect = gun_rifle;
    }
