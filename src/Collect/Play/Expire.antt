-- ===== src/Collect/Play/Expire.antt =====
-- Skulls that have lain too long: `update`.
use spaghettimod.Prelude.{
  ℕ, zero, suc, ◌+◌, ◌≤◌, ◌<◌, ◌≡◌, refl, sym, ap, ◌∙◌, inl, inr, Bool, true, false, ◌&&◌, ◌||◌,
  List, [], ◌∷◌, ◌++◌, arith, length, get_or, set, take, leb, Bool-cases, if-both, if◌then◌else◌,
}
use spaghettimod.Game.Geometry.{Floats}
use spaghettimod.Game.World.{Env}
use spaghettimod.Collect.Token.{Token, new_token, removeunordered, sweep}
use spaghettimod.Collect.Token.Count.{
  one_if, count, count-take-suc, take_full, set_same, length-removeunordered, take-removeunordered,
  count-removeunordered,
}
use spaghettimod.Collect.State.{Collect, expiretokentime}
use spaghettimod.Collect.Play.{visit_expired, update, announce_expired}

module _ {F : Type 0} (fl : Floats F) (env : Env) where
  abbrev pub is_overdue : Token F → Bool
  is_overdue t = leb (t.droptime + expiretokentime) env.lastmillis

  -- The sweep from index `i` down takes away the overdue tokens below `i`.
  sweep-count :
      (test : Token F → Bool) (i : ℕ) (ids : List ℕ) (ts : List (Token F))
      → i ≤ length ts
      → count test (sweep fl (visit_expired fl env) i tt ids ts).1
          + count (λ t. test t && is_overdue t) (take i ts)
        ≡ count test ts
  unfolding sweep
  sweep-count test zero ids ts h = omega arith
  sweep-count test (suc i) ids ts h = elim (Bool-cases (is_overdue t)) [
    | inl late ↦
        ap (λ g. count test (next g).1 + count (λ u. test u && is_overdue u) (take (suc i) ts)) late
        ∙ omega (
          arith,
          sweep-count test i (ids ++ (t.id ∷ [])) gone
              (omega (arith, length-removeunordered fl ts i h)),
          ap (count (λ u. test u && is_overdue u)) (take-removeunordered fl ts i h),
          count-take-suc (λ u. test u && is_overdue u) ts i (new_token fl) h,
          count-removeunordered fl test ts i h,
          both (test t) late,
        )
    | inr fresh ↦
        ap (λ g. count test (next g).1 + count (λ u. test u && is_overdue u) (take (suc i) ts))
          fresh
        ∙ omega (
          arith,
          ap (λ us. count test (sweep fl (visit_expired fl env) i tt ids us).1)
              (set_same ts i (new_token fl)),
          sweep-count test i ids ts (omega arith),
          count-take-suc (λ u. test u && is_overdue u) ts i (new_token fl) h,
          neither (test t) fresh,
        )
  ]
    where
      t : Token F
      t = get_or ts i (new_token fl)

      gone : List (Token F)
      gone = removeunordered fl ts i

      next : Bool → List ℕ × List (Token F)
      next g =
          sweep fl (visit_expired fl env) i tt (if g then ids ++ (t.id ∷ []) else ids)
            (if g then gone else set ts i t)

      both : (b : Bool) {c : Bool} → c ≡ true → one_if (b && c) ≡ one_if b
      both true e = rw e refl
      both false e = refl

      neither : (b : Bool) {c : Bool} → c ≡ false → one_if (b && c) ≡ 0
      neither true e = rw e refl
      neither false e = refl

  -- Of every kind of skull `update` leaves those that are not overdue, as many as there were, and
  -- takes away all the others, while the game runs.
  pub update-count :
      (test : Token F → Bool) (s : Collect F)
      → s.notgotbases ≡ false
      → env.gamemillis < s.world.gamelimit
      → count test (update fl env s).tokens + count (λ t. test t && is_overdue t) s.tokens
        ≡ count test s.tokens
  unfolding update
  update-count test s got runs =
      if-both (λ (u : Collect F). count test u.tokens + late ≡ count test s.tokens)
        (leb s.world.gamelimit env.gamemillis || s.notgotbases) s _
        (λ e. absurd (ground (arith, e))) (λ e. kept_tokens swept.0 ∙ all)
    where
      late : ℕ
      late = count (λ t. test t && is_overdue t) s.tokens

      swept : List ℕ × List (Token F)
      swept = sweep fl (visit_expired fl env) (length s.tokens) tt [] s.tokens

      all : count test swept.1 + late ≡ count test s.tokens
      all =
          ap (λ ts. count test swept.1 + count (λ t. test t && is_overdue t) ts)
            (sym (take_full s.tokens))
          ∙ sweep-count test (length s.tokens) [] s.tokens (omega arith)

      kept_tokens :
          (ids : List ℕ)
          → count test (announce_expired fl env ids (record s { tokens = swept.1 })).tokens + late
            ≡ count test swept.1 + late
      kept_tokens [] = refl
      kept_tokens (id ∷ ids) = refl
