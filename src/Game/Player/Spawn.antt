-- ===== src/Game/Player/Spawn.antt =====
-- `spawnstate` of fpsgame/game.h: what a player starts with in each mode.
-- The loop that draws a second gun until it differs from the first takes fuel, one unit for each
-- draw; `none` means that the fuel ran out.
pub mod Armed
use mathlib.Core.List.{foldl}
use spaghettimod.Prelude.{
  ℕ, zero, suc, ◌+◌, ◌/◌, Bool, ◌||◌, List, [], ◌∷◌, Option, none, some, ◌==◌, if◌then◌else◌,
}
use spaghettimod.Prelude.Int.{ℤ, pos}
use spaghettimod.Game.Items.{gun_fist, gun_cg, gun_rifle, gun_gl, gun_pistol}
use spaghettimod.Game.Random.{Rng, rnd}
use spaghettimod.Game.Modes.{
  m_demo, m_insta, m_regencapture, m_tactics, m_noitems, m_efficiency, m_ctf, m_collect, m_sp,
  m_dmsp,
}
use spaghettimod.Game.Player.{FpsState, blue, green, ammo_of, set_ammo, baseammo}

-- `do spawngun2 = rnd(5)+1; while(spawngun1==spawngun2);`
pub other_gun : ℕ → ℕ → Rng → Option (ℕ × Rng)
other_gun zero spawngun1 r = none
other_gun (suc fuel) spawngun1 r =
    let (n, r') = rnd 5 r in
    let again = other_gun fuel spawngun1 r' in
    if spawngun1 == n + 1 then again else some (n + 1, r')

-- The tactics modes, when the two guns are drawn.
pub tactics_guns : Bool → ℕ → ℕ → FpsState → FpsState
unfolding baseammo
tactics_guns no_items spawngun1 spawngun2 s =
    let k = if no_items then 2 else 1 in
    let t = record (set_ammo s gun_pistol 40) {
      armourtype = green;
      armour = 100;
      gunselect = spawngun1;
    } in
    let u = baseammo (baseammo t spawngun1 k 1) spawngun2 k 1 in
    if no_items then set_ammo u gun_gl (ammo_of u gun_gl + 1) else u

pub efficiency_guns : FpsState → FpsState
unfolding baseammo
efficiency_guns s =
    let t = record s { armourtype = green; armour = 100 } in
    let u = foldl (λ v i. baseammo v i 2 1) t (1 ∷ 2 ∷ 3 ∷ 4 ∷ 5 ∷ []) in
    record (set_ammo u gun_cg (ammo_of u gun_cg / 2)) { gunselect = gun_cg }

-- Blue armour, pistol and grenade.
abbrev pub pistol_start : ℕ → ℕ → FpsState → FpsState
pistol_start armour pistol s = record (set_ammo (set_ammo s gun_pistol pistol) gun_gl 1) {
  armourtype = blue;
  armour = armour;
}

abbrev pub no_armour_start : ℕ → FpsState → FpsState
no_armour_start pistol s = set_ammo (set_ammo s gun_pistol pistol) gun_gl 1

abbrev pub with_gun : ℕ → FpsState → FpsState
with_gun gun s = record s { gunselect = gun }

abbrev after_draws : Bool → FpsState → ℕ → Option (ℕ × Rng) → Option (FpsState × Rng)
after_draws no_items s spawngun1 none = none
after_draws no_items s spawngun1 (some (spawngun2, r)) =
    some (tactics_guns no_items spawngun1 spawngun2 s, r)

pub spawnstate : ℕ → ℤ → Bool → FpsState → Rng → Option (FpsState × Rng)
spawnstate fuel gamemode regenbluearmour s r =
    if m_demo gamemode
    then some (with_gun gun_fist s, r)
    else if m_insta gamemode
    then some
        (record (set_ammo s gun_rifle 100) { armour = 0; health = pos 1; gunselect = gun_rifle }, r)
    else if m_regencapture gamemode
    then some (
      with_gun gun_pistol (if regenbluearmour then pistol_start 25 40 s else no_armour_start 40 s),
      r,
    )
    else if m_tactics gamemode
    then (let (n, r') = rnd 5 r in
        after_draws (m_noitems gamemode) s (n + 1) (other_gun fuel (n + 1) r'))
    else if m_efficiency gamemode
    then some (efficiency_guns s, r)
    else if m_ctf gamemode || m_collect gamemode
    then some (pistol_start 50 40 s, r)
    else if m_sp gamemode
    then some ((if m_dmsp gamemode then pistol_start 25 80 s else no_armour_start 80 s), r)
    else some (pistol_start 25 40 s, r)
