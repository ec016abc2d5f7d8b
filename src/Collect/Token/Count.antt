-- ===== src/Collect/Token/Count.antt =====
-- Tokens as a bag: how many there are of a kind, whatever their order in the array.
use spaghettimod.Prelude.{
  ℕ, zero, suc, ◌+◌, ◌-◌, ◌<◌, ◌≡◌, refl, ap, ◌∙◌, Bool, List, [], ◌∷◌, arith, length, length-set,
  length-take, get_or, get_or-set_self, get_or-set_ne, set, take, take-take, ℕ_discrete,
  if◌then◌else◌,
}
use spaghettimod.Game.Geometry.{Floats}
use spaghettimod.Collect.Token.{Token, new_token, removeunordered}

abbrev pub one_if : Bool → ℕ
one_if b = if b then 1 else 0

module _ {ℓ} {A : Type ℓ} where
  -- How many elements satisfy the test.
  abbrev pub count : (A → Bool) → List A → ℕ
  count test [] = 0
  count test (x ∷ xs) = one_if (test x) + count test xs

  pub count-set :
      (test : A → Bool) (xs : List A) (i : ℕ) (v d : A)
      → i < length xs
      → count test (set xs i v) + one_if (test (get_or xs i d)) ≡ count test xs + one_if (test v)
  count-set test [] i v d h = elim h [ ]
  count-set test (x ∷ xs) zero v d h = omega arith
  count-set test (x ∷ xs) (suc i) v d h = omega (arith, count-set test xs i v d (omega arith))

  -- One element more of a prefix.
  pub count-take-suc :
      (test : A → Bool) (xs : List A) (i : ℕ) (d : A)
      → i < length xs
      → count test (take (suc i) xs) ≡ count test (take i xs) + one_if (test (get_or xs i d))
  count-take-suc test [] i d h = elim h [ ]
  count-take-suc test (x ∷ xs) zero d h = omega arith
  count-take-suc test (x ∷ xs) (suc i) d h = omega (arith, count-take-suc test xs i d (omega arith))

  pub take_full : (xs : List A) → take (length xs) xs ≡ xs
  take_full [] = refl
  take_full (x ∷ xs) = ap (λ t. x ∷ t) (take_full xs)

  pub take-set : (xs : List A) (i : ℕ) (v : A) → take i (set xs i v) ≡ take i xs
  take-set [] zero v = refl
  take-set [] (suc i) v = refl
  take-set (x ∷ xs) zero v = refl
  take-set (x ∷ xs) (suc i) v = ap (λ t. x ∷ t) (take-set xs i v)

  pub set_same : (xs : List A) (i : ℕ) (d : A) → set xs i (get_or xs i d) ≡ xs
  set_same [] i d = refl
  set_same (x ∷ xs) zero d = refl
  set_same (x ∷ xs) (suc i) d = ap (λ t. x ∷ t) (set_same xs i d)

  get_or-set_last :
      (xs : List A) (i last : ℕ) (d : A)
      → i < length xs
      → get_or (set xs i (get_or xs last d)) last d ≡ get_or xs last d
  get_or-set_last xs i last d h = elim (ℕ_discrete i last) [
    | yes same ↦ rw (← same) (get_or-set_self xs i (get_or xs i d) d h)
    | no other ↦ get_or-set_ne xs i last (get_or xs last d) d other
  ]

module _ {F : Type 0} (fl : Floats F) where
  pub length-removeunordered :
      (ts : List (Token F)) (i : ℕ)
      → i < length ts
      → length (removeunordered fl ts i) + 1 ≡ length ts
  unfolding removeunordered
  length-removeunordered ts i h =
      let last = get_or ts (length ts - 1) (new_token fl) in
      omega (arith, length-take (length ts - 1) (set ts i last), length-set ts i last)

  pub take-removeunordered :
      (ts : List (Token F)) (i : ℕ) → i < length ts → take i (removeunordered fl ts i) ≡ take i ts
  unfolding removeunordered
  take-removeunordered ts i h =
      let last = get_or ts (length ts - 1) (new_token fl) in
      take-take i (length ts - 1) (set ts i last) (omega arith) ∙ take-set ts i last

  -- Removing takes away the token of the index, and no other.
  pub count-removeunordered :
      (test : Token F → Bool) (ts : List (Token F)) (i : ℕ)
      → i < length ts
      → count test (removeunordered fl ts i) + one_if (test (get_or ts i (new_token fl)))
        ≡ count test ts
  unfolding removeunordered
  count-removeunordered test ts i h =
      let d = new_token fl in
      let last = length ts - 1 in
      let x = get_or ts last d in
      let moved = set ts i x in
      let size : length moved ≡ length ts = length-set ts i x in
      let all : suc last ≡ length moved = omega (arith, size) in
      let whole : take (suc last) moved ≡ moved = ap (λ n. take n moved) all ∙ take_full moved in
      omega (
        arith,
        count-set test ts i x d h,
        count-take-suc test moved last d (omega (arith, size)),
        ap (count test) whole,
        ap (λ t. one_if (test t)) (get_or-set_last ts i last d h),
      )
