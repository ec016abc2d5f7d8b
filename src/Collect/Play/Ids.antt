-- ===== src/Collect/Play/Ids.antt =====
-- The numbers of skulls: no two skulls have the same, and the next one is not in use.
use mathlib.Core.Path.{subst}
use spaghettimod.Prelude.{
  ℕ, zero, suc, ◌+◌, ◌*◌, ◌/◌, ◌^◌, ◌≤◌, ◌<◌, ◌≡◌, refl, sym, ap, inl, inr, Bool, List, [], ◌∷◌,
  ◌++◌, arith, length, get_or, set, length-set, ◌==◌, if-both, if◌then◌else◌, Bool-cases,
}
use spaghettimod.Prelude.Int.{ℤ, pos, sub_ℕ, eqb_ℤ}
use spaghettimod.Game.Geometry.{Floats}
use spaghettimod.Game.World.{Client, Env, draw}
use spaghettimod.Collect.Token.{Token, new_token, removeunordered, sweep}
use spaghettimod.Collect.Token.Count.{
  one_if, count, count-set, length-removeunordered, count-removeunordered,
}
use spaghettimod.Collect.State.{Collect, collectteambase}
use spaghettimod.Collect.Play.{
  Counts, visit_drops, droptoken, drop_loop, droptokens, announce_expired, next_id,
}

module _ {F : Type 0} where
  abbrev pub has_id : ℕ → Token F → Bool
  has_id n t = t.id == n

  -- At most one skull has a number, and none has one above `nexttoken`.
  abbrev pub Fresh : ℕ → List (Token F) → Type 0
  Fresh next ts = (n : ℕ) → (count (has_id n) ts ≤ 1) × (next < n → count (has_id n) ts ≡ 0)

  count-append :
      (test : Token F → Bool) (ts us : List (Token F))
      → count test (ts ++ us) ≡ count test ts + count test us
  count-append test [] us = omega arith
  count-append test (t ∷ ts) us = omega (arith, count-append test ts us)

  Fresh-new :
      (next : ℕ) (ts : List (Token F)) (t : Token F)
      → t.id ≡ next + 1
      → Fresh next ts
      → Fresh (next + 1) (ts ++ (t ∷ []))
  Fresh-new next ts t e h n = elim (Bool-cases (t.id == n)) [
    | inl same ↦ (
      ground (arith, count-append (has_id n) ts (t ∷ []), h n, same, e),
      λ k. absurd (ground (arith, same, e, k)),
    )
    | inr other ↦ (
      ground (arith, count-append (has_id n) ts (t ∷ []), h n, other),
      λ k. ground (arith, count-append (has_id n) ts (t ∷ []), h n, other, k),
    )
  ]

module _ {ℓ} {A : Type ℓ} {F : Type 0} (fl : Floats F)
    (visit : A → Token F → Bool × Token F × A) where
  -- A sweep that leaves the numbers alone adds none.
  sweep_le :
      (test : Token F → Bool)
      → ((a : A) (t : Token F) → test (visit a t).1 ≡ test t)
      → (i : ℕ) (a : A) (ids : List ℕ) (ts : List (Token F)) → i ≤ length ts
      → count test (sweep fl visit i a ids ts).1 ≤ count test ts
  unfolding sweep
  sweep_le test keep zero a ids ts h = omega arith
  sweep_le test keep (suc i) a ids ts h = elim (Bool-cases (visit a t).0) [
    | inl out ↦
        subst (λ (g : Bool). count test (next g).1 ≤ count test ts) (sym out)
          (omega (
            arith,
            sweep_le test keep i (visit a t).2 (ids ++ (t.id ∷ [])) (removeunordered fl ts i)
                (omega (arith, length-removeunordered fl ts i h)),
            count-removeunordered fl test ts i h,
          ))
    | inr stays ↦
        subst (λ (g : Bool). count test (next g).1 ≤ count test ts) (sym stays)
          (omega (
            arith,
            sweep_le test keep i (visit a t).2 ids (set ts i kept)
                (omega (arith, length-set ts i kept)),
            count-set test ts i kept (new_token fl) h,
            ap one_if (keep a t),
          ))
  ]
    where
      t : Token F
      t = get_or ts i (new_token fl)

      kept : Token F
      kept = (visit a t).1

      next : Bool → List ℕ × List (Token F)
      next g =
          sweep fl visit i (visit a t).2 (if g then ids ++ (t.id ∷ []) else ids)
            (if g then removeunordered fl ts i else set ts i kept)

module _ {F : Type 0} (fl : Floats F) (env : Env) where
  next_id_small : (n : ℕ) → n + 1 < 2 ^ 31 → next_id n ≡ n + 1
  next_id_small n h = ground (arith, h)

  drop_loop-Fresh :
      (ci : Client F) (numdrops yaw left i : ℕ) (dropped : List (ℕ × ℤ × ℕ)) (s : Collect F)
      → s.nexttoken + left < 2 ^ 31
      → Fresh s.nexttoken s.tokens
      → Fresh
          (drop_loop fl env ci numdrops yaw left i dropped s).1.nexttoken
          (drop_loop fl env ci numdrops yaw left i dropped s).1.tokens
  unfolding drop_loop droptoken
  drop_loop-Fresh ci numdrops yaw zero i dropped s h fresh = fresh
  drop_loop-Fresh ci numdrops yaw (suc left) i dropped s h fresh =
      drop_loop-Fresh ci numdrops yaw left (suc i)
        (dropped ++ ((drop.0.id, drop.0.team, drop.0.yaw) ∷ [])) drop.1
        (rw (next_id_small s.nexttoken (omega arith)) (omega arith))
        (subst (λ n. Fresh n drop.1.tokens) (sym (next_id_small s.nexttoken (omega arith)))
          (Fresh-new s.nexttoken s.tokens drop.0 (next_id_small s.nexttoken (omega arith)) fresh))
    where
      team : ℕ
      team = collectteambase ci.team

      drop : Token F × Collect F
      drop =
          droptoken fl env ci.o (yaw + i * 360 / numdrops)
            (if i == 0 then pos team else sub_ℕ 0 team) env.lastmillis ci.clientnum s

  -- While the numbers do not run out, the skulls that a client drops get numbers that no skull has:
  -- if at most one skull has each number, and none has one above the last that was given, the same
  -- holds afterwards.
  pub droptokens-Fresh :
      (ci : Client F) (penalty : Bool) (s : Collect F)
      → s.nexttoken + ci.tokens + 1 < 2 ^ 31
      → Fresh s.nexttoken s.tokens
      → Fresh (droptokens fl env ci penalty s).nexttoken (droptokens fl env ci penalty s).tokens
  unfolding droptokens
  droptokens-Fresh ci penalty s h fresh =
      if-both (λ (u : Collect F). Fresh u.nexttoken u.tokens) s.notgotbases s _ (λ e. fresh)
        (λ e. after swept.0)
    where
      lost : ℕ
      lost = if penalty then 0 else ci.tokens

      few : lost ≤ ci.tokens
      few = ground arith

      swept : List ℕ × List (Token F)
      swept = sweep fl (visit_drops fl env ci) (length s.tokens) (1, lost) [] s.tokens

      visited :
          (n : ℕ) (a : Counts) (t : Token F) → has_id n (visit_drops fl env ci a t).1 ≡ has_id n t
      visited n a t =
          if-both (λ (r : Bool × Token F × Counts). has_id n r.1 ≡ has_id n t)
            (eqb_ℤ t.dropper ci.clientnum) _ _ (λ e. refl) (λ e. refl)

      kept : Fresh s.nexttoken swept.1
      kept n =
          let less =
            sweep_le fl (visit_drops fl env ci) (has_id n) (visited n) (length s.tokens) (1, lost)
              [] s.tokens (omega arith) in
          (omega (arith, less, (fresh n).0), λ k. omega (arith, less, (fresh n).1 k))

      start : List ℕ → Collect F
      start ids =
          let s1 = announce_expired fl env ids (record s { tokens = swept.1 }) in
          record s1 { world = (draw 360 s1.world).1 }

      yaw : List ℕ → ℕ
      yaw ids = (draw 360 (announce_expired fl env ids (record s { tokens = swept.1 })).world).0

      after :
          (ids : List ℕ)
          → Fresh
              (drop_loop fl env ci (1 + lost) (yaw ids) (1 + lost) 0 [] (start ids)).1.nexttoken
              (drop_loop fl env ci (1 + lost) (yaw ids) (1 + lost) 0 [] (start ids)).1.tokens
      after [] =
          drop_loop-Fresh ci (1 + lost) (yaw []) (1 + lost) 0 [] (start []) (omega (arith, few))
            kept
      after (id ∷ ids) =
          drop_loop-Fresh ci (1 + lost) (yaw (id ∷ ids)) (1 + lost) 0 [] (start (id ∷ ids))
            (omega (arith, few)) kept
