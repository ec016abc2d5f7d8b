-- ===== src/Capture/Clock/Winner.antt =====
-- When a team owns every base: `endcheck`.
use Prim.Native.Nat.{min}
use mathlib.Core.List.{append-nil, append_assoc}
use spaghettimod.Prelude.{
  ◌+◌, ◌≤◌, ◌<◌, ◌≡◌, ◌↔◌, ◌≢◌, ◌⊎◌, inl, inr, refl, sym, ◌∙◌, ◌++◌, Bool, true, false, ◌&&◌, ◌||◌,
  List, [], ◌∷◌, none, some, arith, length, All, leb, ◌==◌, if-both, take_all,
}
use spaghettimod.Prelude.Int.{ℤ, pos, negsuc}
use spaghettimod.Game.Names.{Name, same_name_iff, same_name_refl, nonempty, copystring, max_str_len}
use spaghettimod.Game.Geometry.{Floats}
use spaghettimod.Game.World.{World, Env, startintermission, changegamespeed, send, Msg}
use spaghettimod.Capture.Base.{BaseInfo, valid}
use spaghettimod.Capture.State.{Capture, Score, getteamscore, change_score}
use spaghettimod.Capture.Clock.{only_owner, endcheck}

module _ {F : Type 0} where
  abbrev pub any_valid : List (BaseInfo F) → Bool
  any_valid [] = false
  any_valid (b ∷ bs) = valid b || any_valid bs

  -- A valid base is the team's.
  abbrev pub IsOwned : Name → BaseInfo F → Type 0
  IsOwned team b = valid b ≡ true → (nonempty b.owner ≡ true) × (b.owner ≡ team)

  -- The team owns every valid base, and there is one.
  abbrev pub OwnsAll : Name → List (BaseInfo F) → Type 0
  OwnsAll team bs = All (IsOwned team) bs × (any_valid bs ≡ true)

module _ {F : Type 0} (fl : Floats F) (env : Env) where
  -- After a base of the team `l`.
  after_one→ :
      (l team : Name) (bs : List (BaseInfo F))
      → only_owner fl env (some l) bs ≡ some team
      → (l ≡ team) × All (IsOwned team) bs
  unfolding only_owner
  after_one→ l team [] e = (ground (arith, e), tt)
  after_one→ l team (b ∷ bs) e = ground (arith, after_one→ l team bs, same_name_iff l b.owner)

  after_one← :
      (team : Name) (bs : List (BaseInfo F))
      → All (IsOwned team) bs
      → only_owner fl env (some team) bs ≡ some team
  unfolding only_owner
  after_one← team [] h = refl
  after_one← team (b ∷ bs) h = ground (arith, after_one← team bs, same_name_iff team b.owner)

  -- `endcheck` finds a team just when it owns every valid base and there is one.
  pub only_owner-OwnsAll :
      (team : Name) (bs : List (BaseInfo F))
      → (only_owner fl env none bs ≡ some team) ↔ OwnsAll team bs
  unfolding only_owner
  only_owner-OwnsAll team [] = (λ e. absurd (cc), λ h. absurd (cc))
  only_owner-OwnsAll team (b ∷ bs) = ground (
    arith,
    only_owner-OwnsAll team bs,
    after_one→ b.owner team bs,
    after_one← team bs,
    same_name_iff team b.owner,
  )

  score_changed :
      (team : Name) (change : ℤ → ℤ) (scores : List Score)
      → length team < max_str_len
      → getteamscore (change_score team change scores) team ≡ change (getteamscore scores team)
  unfolding getteamscore change_score copystring
  score_changed team change [] h =
      ground (arith, take_all 259 team (omega arith), same_name_refl team)
  score_changed team change (cs ∷ scores) h = ground (arith, score_changed team change scores h)

  -- What changegamespeed keeps, and what it sets.
  record Slowed (w t : World F) : Type 0 where
    speed : t.gamespeed ≡ 100
    limit : t.gamelimit ≡ w.gamelimit
    more : List Msg
    told : t.sent ≡ w.sent ++ more

  speed-Slowed : (w : World F) → Slowed w (changegamespeed 100 w)
  unfolding changegamespeed
  speed-Slowed w =
      if-both (Slowed w) (w.gamespeed == 100) w
        (send (Msg.game_speed 100) (record w { gamespeed = 100 }))
        (λ e. record {
          speed = ground arith;
          limit = refl;
          more = [];
          told = sym (append-nil w.sent);
        })
        (λ e. record { speed = refl; limit = refl; more = Msg.game_speed 100 ∷ []; told = refl })

  -- From the world `w` the intermission begins: the game's time is over, and unless there is an
  -- intermission the clients hear that time is up, at normal speed, and it lasts ten seconds.
  pub record Ends (w t : World F) : Type 0 where
    pub over : t.gamelimit ≤ env.gamemillis
    pub begins :
        ((w.interm ≡ 0)
          × (t.interm ≡ env.gamemillis + 10000)
          × (t.gamespeed ≡ 100)
          × ((more : List Msg) × (t.sent ≡ w.sent ++ (Msg.time_up 0 ∷ more))))
        ⊎ ((w.interm ≢ 0) × (t.interm ≡ w.interm) × (t.sent ≡ w.sent))

  startintermission-Ends : (w : World F) → Ends w (startintermission env w)
  unfolding startintermission
  startintermission-Ends w =
      if-both (Ends w) (leb (min w.gamelimit env.gamemillis) env.gamemillis && w.interm == 0)
        (record ended { interm = env.gamemillis + 10000 }) limited
        (λ e. record {
          over = omega (arith, slowed.limit);
          begins = inl (
            ground arith,
            refl,
            slowed.speed,
            (slowed.more, slowed.told ∙ append_assoc w.sent (Msg.time_up 0 ∷ []) slowed.more),
          );
        })
        (λ e. record { over = omega arith; begins = inr (λ z. absurd (ground arith), refl, refl) })
    where
      limited : World F
      limited = record w { gamelimit = min w.gamelimit env.gamemillis }

      ended : World F
      ended = changegamespeed 100 (send (Msg.time_up 0) limited)

      slowed : Slowed (send (Msg.time_up 0) limited) ended
      slowed = speed-Slowed (send (Msg.time_up 0) limited)

  -- If a team owns every valid base, and there is one, `endcheck` gives it the score 10000 and ends
  -- the game: its time is over, the clients hear of the score, and unless there is an intermission
  -- already they next hear that time is up, and it begins, at normal speed, for ten seconds.
  pub endcheck_wins :
      (team : Name) (s : Capture F)
      → length team < max_str_len
      → OwnsAll team s.bases
      → (getteamscore (endcheck fl env s).scores team ≡ pos 10000)
        × Ends (send (Msg.base_score (negsuc 0) team (pos 10000)) s.world) (endcheck fl env s).world
  unfolding endcheck
  endcheck_wins team s h all =
      let found : only_owner fl env none s.bases ≡ some team =
        (only_owner-OwnsAll team s.bases).1 all in
      rw (found, endcheck)
        (score_changed team (λ total. pos 10000) s.scores h, startintermission-Ends _)
