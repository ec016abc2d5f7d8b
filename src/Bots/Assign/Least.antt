-- ===== src/Bots/Assign/Least.antt =====
-- The clients of the fewest and of the most bots: what the loops of `findaiclient` and `reassignai`
-- leave.
use mathlib.Core.Bool.{not}
use spaghettimod.Prelude.{
  ℕ, ◌≤◌, ◌≡◌, true, false, ◌||◌, List, [], ◌∷◌, Option, none, some, arith, length, All, if-both,
}
use spaghettimod.Prelude.Int.{ℤ}
use spaghettimod.Bots.Member.{Member}
use spaghettimod.Bots.Assign.{
  validaiclient, is_excluded, fewer, more, least_from, consider, findaiclient, extremes,
}

abbrev pub Holds {κ} : (Member → Type κ) → Option Member → Type κ
Holds P none = Unit {κ}
Holds P (some c) = P c

-- There is a choice, and it has at most, or at least, `n` bots.
abbrev pub AtMost : Option Member → ℕ → Type 0
AtMost none n = ⊥
AtMost (some c) n = length c.bots ≤ n

abbrev pub AtLeast : Option Member → ℕ → Type 0
AtLeast none n = ⊥
AtLeast (some c) n = n ≤ length c.bots

fewer-AtMost : (l : Option Member) (c : Member) → AtMost (fewer l c) (length c.bots)
fewer-AtMost none c = omega arith
fewer-AtMost (some l) c = ground arith

more-AtLeast : (l : Option Member) (c : Member) → AtLeast (more l c) (length c.bots)
more-AtLeast none c = omega arith
more-AtLeast (some l) c = ground arith

fewer-keeps : (l : Option Member) (c : Member) (n : ℕ) → AtMost l n → AtMost (fewer l c) n
fewer-keeps none c n h = elim h [ ]
fewer-keeps (some l) c n h = ground arith

more-keeps : (l : Option Member) (c : Member) (n : ℕ) → AtLeast l n → AtLeast (more l c) n
more-keeps none c n h = elim h [ ]
more-keeps (some l) c n h = ground arith

module _ {κ} (P : Member → Type κ) where
  fewer-Holds : (l : Option Member) (c : Member) → Holds P l → P c → Holds P (fewer l c)
  fewer-Holds none c h p = p
  fewer-Holds (some l) c h p = if-both (Holds P) _ (some c) (some l) (λ e. p) (λ e. h)

  more-Holds : (l : Option Member) (c : Member) → Holds P l → P c → Holds P (more l c)
  more-Holds none c h p = p
  more-Holds (some l) c h p = if-both (Holds P) _ (some c) (some l) (λ e. p) (λ e. h)

  -- What holds of the valid clients holds of the two that are found.
  pub extremes-Holds :
      (lo hi : Option Member) (cs : List Member)
      → Holds P lo
      → Holds P hi
      → All P cs
      → Holds P (extremes lo hi cs).0 × Holds P (extremes lo hi cs).1
  unfolding extremes
  extremes-Holds lo hi [] l h all = (l, h)
  extremes-Holds lo hi (c ∷ cs) l h all =
      if-both (λ (r : Option Member × Option Member). Holds P r.0 × Holds P r.1)
        (not (validaiclient c)) (extremes lo hi cs) (extremes (fewer lo c) (more hi c) cs)
        (λ e. extremes-Holds lo hi cs l h all.1)
        (λ e.
          extremes-Holds (fewer lo c) (more hi c) cs (fewer-Holds lo c l all.0)
            (more-Holds hi c h all.0) all.1)

extremes-keeps :
    (lo hi : Option Member) (cs : List Member) (n : ℕ)
    → (AtMost lo n → AtMost (extremes lo hi cs).0 n)
      × (AtLeast hi n → AtLeast (extremes lo hi cs).1 n)
unfolding extremes
extremes-keeps lo hi [] n = (λ h. h, λ h. h)
extremes-keeps lo hi (c ∷ cs) n =
    if-both
      (λ (r : Option Member × Option Member).
        (AtMost lo n → AtMost r.0 n) × (AtLeast hi n → AtLeast r.1 n))
      (not (validaiclient c)) (extremes lo hi cs) (extremes (fewer lo c) (more hi c) cs)
      (λ e. extremes-keeps lo hi cs n)
      (λ e.
        let rest = extremes-keeps (fewer lo c) (more hi c) cs n in
        (λ h. rest.0 (fewer-keeps lo c n h), λ h. rest.1 (more-keeps hi c n h)))

-- Every valid client has between the fewest and the most bots.
abbrev pub Between : Option Member × Option Member → Member → Type 0
Between r c = validaiclient c ≡ true → AtMost r.0 (length c.bots) × AtLeast r.1 (length c.bots)

pub extremes-Between :
    (lo hi : Option Member) (cs : List Member) → All (Between (extremes lo hi cs)) cs
unfolding extremes
extremes-Between lo hi [] = tt
extremes-Between lo hi (c ∷ cs) =
    if-both (λ (r : Option Member × Option Member). Between r c × All (Between r) cs)
      (not (validaiclient c)) (extremes lo hi cs) (extremes (fewer lo c) (more hi c) cs)
      (λ e. (λ valid. absurd (ground arith), extremes-Between lo hi cs))
      (λ e.
        let rest = extremes-keeps (fewer lo c) (more hi c) cs (length c.bots) in
        (
          λ valid. (rest.0 (fewer-AtMost lo c), rest.1 (more-AtLeast hi c)),
          extremes-Between (fewer lo c) (more hi c) cs,
        ))

-- The same of `findaiclient`.
least_from-Holds {κ} :
    (P : Member → Type κ) (exclude : Option ℤ) (least : Option Member) (cs : List Member)
    → Holds P least
    → All (λ c. validaiclient c ≡ true → is_excluded exclude c ≡ false → P c) cs
    → Holds P (least_from exclude least cs)
unfolding least_from
least_from-Holds P exclude least [] h all = h
least_from-Holds P exclude least (c ∷ cs) h all =
    least_from-Holds P exclude (consider exclude least c) cs
      (if-both (Holds P) (not (validaiclient c) || is_excluded exclude c) least (fewer least c)
        (λ e. h) (λ e. fewer-Holds P least c h (all.0 (ground arith) (ground arith))))
      all.1

least_from-keeps :
    (exclude : Option ℤ) (least : Option Member) (cs : List Member) (n : ℕ)
    → AtMost least n
    → AtMost (least_from exclude least cs) n
unfolding least_from
least_from-keeps exclude least [] n h = h
least_from-keeps exclude least (c ∷ cs) n h =
    least_from-keeps exclude (consider exclude least c) cs n (
      if-both (λ o. AtMost o n) (not (validaiclient c) || is_excluded exclude c) least
        (fewer least c) (λ e. h) (λ e. fewer-keeps least c n h))

least_from-AtMost :
    (exclude : Option ℤ) (least : Option Member) (cs : List Member)
    → All
        (λ c.
          validaiclient c ≡ true
          → is_excluded exclude c ≡ false
          → AtMost (least_from exclude least cs) (length c.bots))
        cs
unfolding least_from
least_from-AtMost exclude least [] = tt
least_from-AtMost exclude least (c ∷ cs) = (
  λ valid other. least_from-keeps exclude (consider exclude least c) cs (length c.bots) (
      if-both (λ o. AtMost o (length c.bots)) (not (validaiclient c) || is_excluded exclude c) least
        (fewer least c) (λ e. absurd (ground arith)) (λ e. fewer-AtMost least c)),
  least_from-AtMost exclude (consider exclude least c) cs,
)

-- What holds of every client holds of what findaiclient gives.
pub findaiclient-Holds {κ} :
    (P : Member → Type κ) (cs : List Member) (exclude : Option ℤ)
    → All P cs
    → Holds P (findaiclient cs exclude)
unfolding findaiclient
findaiclient-Holds P cs exclude all = least_from-Holds P exclude none cs tt (weaken cs all)
  where
    weaken :
        (ds : List Member)
        → All P ds
        → All (λ c. validaiclient c ≡ true → is_excluded exclude c ≡ false → P c) ds
    weaken [] all = tt
    weaken (d ∷ ds) all = (λ v e. all.0, weaken ds all.1)

-- What findaiclient gives is valid and not excluded, and there is a client that it gives, of at
-- most as many bots, whenever a client of the list is valid and not excluded.
pub findaiclient_least :
    (cs : List Member) (exclude : Option ℤ)
    → Holds
        (λ c. (validaiclient c ≡ true) × (is_excluded exclude c ≡ false))
        (findaiclient cs exclude)
      × All
          (λ c.
            validaiclient c ≡ true
            → is_excluded exclude c ≡ false
            → AtMost (findaiclient cs exclude) (length c.bots))
          cs
unfolding findaiclient
findaiclient_least cs exclude =
    (least_from-Holds _ exclude none cs tt (every cs), least_from-AtMost exclude none cs)
  where
    every :
        (ds : List Member)
        → All
            (λ c.
              validaiclient c ≡ true
              → is_excluded exclude c ≡ false
              → (validaiclient c ≡ true) × (is_excluded exclude c ≡ false))
            ds
    every [] = tt
    every (d ∷ ds) = (λ v e. (v, e), every ds)
