-- ===== src/Capture/Clock/Bases.antt =====
-- The bases stay valid under the clock.
use mathlib.Core.Bool.{not}
use spaghettimod.Prelude.{
  ℕ, ◌-◌, ◌/◌, ◌≡◌, refl, inl, inr, true, ◌&&◌, ◌||◌, Option, none, some, length, if-both,
  Bool-cases, leb, ◌==◌,
}
use spaghettimod.Prelude.Int.{ℤ, pos, ◌+ℤ◌}
use spaghettimod.Prelude.Loop.{for_each_keep}
use spaghettimod.Game.Names.{Name, nonempty}
use spaghettimod.Game.Modes.{m_regencapture}
use spaghettimod.Game.Geometry.{Floats}
use spaghettimod.Game.World.{Env}
use spaghettimod.Capture.Base.{BaseInfo, valid, occupy, addammo}
use spaghettimod.Capture.Base.Invariant.{IsValid, occupy-IsValid}
use spaghettimod.Capture.State.{Capture, change_base}
use spaghettimod.Capture.Play.{base_at, sendbaseinfo, addscore, scoresecs, ammosecs, regensecs}
use spaghettimod.Capture.Play.Bases.{AllValid, change_base-AllValid}
use spaghettimod.Capture.Clock.{
  contested, owned, earn_ammo, regenowners, update_base, endcheck, only_owner, update, units,
  elapsed,
}

module _ {F : Type 0} (fl : Floats F) (env : Env) where
  contested-AllValid :
      (t i : ℕ) (s : Capture F)
      → nonempty (base_at fl env s i).enemy ≡ true
      → AllValid fl env s
      → AllValid fl env (contested fl env t i s)
  unfolding contested sendbaseinfo
  contested-AllValid t i s enemy all =
      if-both (AllValid fl env)
        ((base_at fl env s i).owners == 0 || (base_at fl env s i).enemies == 0)
        (change_base i (λ c. (occupy c.enemy (units fl env c t) c).1) s) s
        (λ e.
          change_base-AllValid fl env i (λ c. (occupy c.enemy (units fl env c t) c).1) s
            (occupy-IsValid (base_at fl env s i).enemy (units fl env (base_at fl env s i) t)
              (base_at fl env s i) enemy)
            all)
        (λ e. all)

  addammo-IsValid : (n : ℕ) (b : BaseInfo F) → IsValid b → IsValid (addammo n b).1
  unfolding addammo
  addammo-IsValid n b v = elim (Bool-cases (leb 5 b.ammo)) [ inl e ↦ rw e v | inr e ↦ rw e v ]

  earn_ammo-AllValid :
      (n i : ℕ) (s : Capture F) → AllValid fl env s → AllValid fl env (earn_ammo fl env n i s)
  unfolding earn_ammo sendbaseinfo
  earn_ammo-AllValid n i s all =
      if-both (AllValid fl env) (not (n == 0) && (addammo n (base_at fl env s i)).0) _ s
        (λ e.
          change_base-AllValid fl env i (λ c. (addammo n c).1) s
            (addammo-IsValid n (base_at fl env s i)) all)
        (λ e. all)

  addscore-AllValid :
      (i : ℕ) (team : Name) (n : ℕ) (s : Capture F)
      → AllValid fl env s
      → AllValid fl env (addscore fl env i team n s)
  unfolding addscore
  addscore-AllValid i team n s all = if-both (AllValid fl env) (n == 0) s _ (λ e. all) (λ e. all)

  regenowners-AllValid :
      (i n : ℕ) (s : Capture F) → AllValid fl env s → AllValid fl env (regenowners fl env i n s)
  unfolding regenowners
  regenowners-AllValid i n s all = all

  owned-AllValid :
      (t i : ℕ) (s : Capture F) → AllValid fl env s → AllValid fl env (owned fl env t i s)
  unfolding owned
  owned-AllValid t i s all =
      if-both (AllValid fl env) (m_regencapture env.gamemode) _ _
        (λ e.
          if-both (AllValid fl env) (elapsed time t regensecs == 0) scored _ (λ z. scored_ok)
            (λ z. regenowners-AllValid i (elapsed time t regensecs) scored scored_ok))
        (λ e. earn_ammo-AllValid (elapsed time t ammosecs) i scored scored_ok)
    where
      grown : Capture F
      grown = change_base i (λ c. record c { capturetime = c.capturetime +ℤ pos t }) s

      time : ℤ
      time = (base_at fl env grown i).capturetime

      scored : Capture F
      scored = addscore fl env i (base_at fl env grown i).owner (elapsed time t scoresecs) grown

      scored_ok : AllValid fl env scored
      scored_ok =
          addscore-AllValid i (base_at fl env grown i).owner (elapsed time t scoresecs) grown (
            change_base-AllValid fl env i (λ c. record c { capturetime = c.capturetime +ℤ pos t }) s
              (λ v. v) all)

  update_base-AllValid :
      (t i : ℕ) (s : Capture F) → AllValid fl env s → AllValid fl env (update_base fl env t i s)
  unfolding update_base
  update_base-AllValid t i s all =
      if-both (AllValid fl env) (not (valid (base_at fl env s i))) s _ (λ e. all)
        (λ e.
          if-both (AllValid fl env) (nonempty (base_at fl env s i).enemy) _ _
            (λ enemy. contested-AllValid t i s enemy all)
            (λ e.
              if-both (AllValid fl env) (nonempty (base_at fl env s i).owner) _ s
                (λ e. owned-AllValid t i s all) (λ e. all)))

  endcheck-AllValid : (s : Capture F) → AllValid fl env s → AllValid fl env (endcheck fl env s)
  unfolding endcheck
  endcheck-AllValid s all = go (only_owner fl env none s.bases) refl
    where
      go :
          (o : Option Name)
          → only_owner fl env none s.bases ≡ o
          → AllValid fl env (endcheck fl env s)
      go none e = rw (e, endcheck) all
      go (some team) e = rw (e, endcheck) all

  -- A tick of the clock keeps the bases valid: a base without an enemy has nothing converted, a
  -- conversion that is under way is not negative and not complete, and the enemy is not the owner.
  pub update-AllValid : (s : Capture F) → AllValid fl env s → AllValid fl env (update fl env s)
  unfolding update
  update-AllValid s all =
      if-both (AllValid fl env) (leb s.world.gamelimit env.gamemillis) s _ (λ e. all)
        (λ e.
          if-both (AllValid fl env) (t == 0) (endcheck fl env s) _ (λ e. endcheck-AllValid s all)
            (λ e.
              for_each_keep (AllValid fl env) (update_base fl env t) (update_base-AllValid t)
                (length (endcheck fl env s).bases) (endcheck fl env s) (endcheck-AllValid s all)))
    where
      t : ℕ
      t = env.gamemillis / 1000 - (env.gamemillis - env.curtime) / 1000
