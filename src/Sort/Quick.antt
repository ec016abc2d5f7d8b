-- ===== src/Sort/Quick.antt =====
-- `quicksort` ends, and sorts.
use mathlib.Core.Logic.{∥∥₁_elim}
use mathlib.Core.Bool.{Bool-set}
use mathlib.Core.List.{Perm, Permᴰ}
use mathlib.Core.List.Perm
use spaghettimod.Prelude.{
  ℕ, zero, suc, ◌≤◌, ◌<◌, ◌≡◌, refl, ap, ◌∙◌, Bool, true, false, ◌||◌, List, [], ◌∷◌, ◌++◌, some,
  arith, length, get_or, take, drop, length-take, length-drop, All, All-append, Bool-cases, inl,
  inr, ltb,
}
use spaghettimod.Sort.{partition, quicksort, insertionsort}
use spaghettimod.Sort.Insertion.{StrictOrder, IsSorted}
use spaghettimod.Sort.Insertion.Whole.{insertionsort-IsSorted}
use spaghettimod.Sort.Partition.Place.{Parts, partition-Parts}

module _ {A : Type 0} where
  -- Some element passes the test.
  unfoldable pub any : (A → Bool) → List A → Bool
  any g [] = false
  any g (x ∷ xs) = g x || any g xs

  pub any-All : (g : A → Bool) (xs : List A) → any g xs ≡ false → All (λ x. g x ≡ false) xs
  unfolding any
  any-All g [] e = tt
  any-All g (x ∷ xs) e = (ground arith, any-All g xs (ground arith))

  pub All-any : (g : A → Bool) (xs : List A) → All (λ x. g x ≡ false) xs → any g xs ≡ false
  unfolding any
  All-any g [] all = refl
  All-any g (x ∷ xs) all = ground (arith, all.0, All-any g xs all.1)

  any-Permᴰ : (g : A → Bool) {xs ys : List A} → Permᴰ xs ys → any g xs ≡ any g ys
  unfolding any
  any-Permᴰ g Permᴰ.nil = refl
  any-Permᴰ g (Permᴰ.cons e p) = ground (arith, ap g e, any-Permᴰ g p)
  any-Permᴰ g (Permᴰ.swap e e') = ground (arith, ap g e, ap g e')
  any-Permᴰ g (Permᴰ.trans p q) = any-Permᴰ g p ∙ any-Permᴰ g q

  pub any-perm : (g : A → Bool) (xs ys : List A) → Perm xs ys → any g xs ≡ any g ys
  any-perm g xs ys p = ∥∥₁_elim p (Bool-set _ _) (any-Permᴰ g)

  -- What holds of no element holds of none of a permutation.
  pub All-perm :
      (g : A → Bool) (xs ys : List A) → Perm xs ys → any g ys ≡ false → All (λ x. g x ≡ false) xs
  All-perm g xs ys p e = any-All g xs (any-perm g xs ys p ∙ e)

  any-take :
      (g : A → Bool) (i : ℕ) (f : List A) (d : A)
      → ((k : ℕ) → k < i → g (get_or f k d) ≡ false)
      → any g (take i f) ≡ false
  unfolding any
  any-take g zero f d all = refl
  any-take g (suc i) [] d all = refl
  any-take g (suc i) (x ∷ f) d all =
      ground (arith, all 0 (omega arith), any-take g i f d (λ k h. all (suc k) (omega arith)))

  any-drop :
      (g : A → Bool) (i : ℕ) (f : List A) (d : A)
      → ((k : ℕ) → i ≤ k → k < length f → g (get_or f k d) ≡ false)
      → any g (drop i f) ≡ false
  unfolding any
  any-drop g zero [] d all = refl
  any-drop g zero (x ∷ f) d all = ground (
    arith,
    all 0 (omega arith) (omega arith),
    any-drop g zero f d (λ k h b. all (suc k) (omega arith) (omega arith)),
  )
  any-drop g (suc i) [] d all = refl
  any-drop g (suc i) (x ∷ f) d all =
      any-drop g i f d (λ k h b. all (suc k) (omega arith) (omega arith))

  cut_at :
      (i : ℕ) (f : List A) (d : A) → i < length f → take i f ++ (get_or f i d ∷ drop (suc i) f) ≡ f
  cut_at i [] d h = absurd (omega arith)
  cut_at zero (x ∷ f) d h = refl
  cut_at (suc i) (x ∷ f) d h = ap (λ l. x ∷ l) (cut_at i f d (omega arith))

module _ {A : Type 0} (fun : A → A → Bool) (d : A) (order : StrictOrder fun) where
  later :
      (x p : A) (r : List A)
      → fun p x ≡ false
      → All (λ y. fun y p ≡ false) r
      → All (λ y. fun y x ≡ false) r
  later x p [] e all = tt
  later x p (y ∷ r) e all = (order.weak y p x all.0 e, later x p r e all.1)

  join-IsSorted :
      (p : A) (l r : List A)
      → IsSorted fun l
      → IsSorted fun r
      → All (λ x. fun p x ≡ false) l
      → All (λ y. fun y p ≡ false) r
      → IsSorted fun (l ++ (p ∷ r))
  join-IsSorted p [] r sl sr below above = (above, sr)
  join-IsSorted p (x ∷ l) r sl sr below above = (
    All-append (λ y. fun y x ≡ false) l (p ∷ r) sl.0 (below.0, later x p r below.0 above),
    join-IsSorted p l r sl.1 sr below.1 above,
  )

  -- What a run of quicksort gives.
  abbrev pub Sorts : ℕ → List A → Type 0
  Sorts fuel xs = (ys : List A) × (quicksort fun d fuel xs ≡ some ys) × IsSorted fun ys × Perm ys xs

  -- From the partition and the runs on its parts.
  join-Sorts :
      (fuel : ℕ) (xs : List A) (i : ℕ) (f : List A)
      → ltb 10 (length xs) ≡ true
      → partition fun d xs ≡ some (i, f)
      → Parts fun d xs i f
      → Sorts fuel (take i f)
      → Sorts fuel (drop (suc i) f)
      → Sorts (suc fuel) xs
  unfolding quicksort
  join-Sorts fuel xs i f big parted parts (l, el, sl, pl) (r, er, sr, pr) =
      let p = get_or f i d in
      let size = parts.size in
      let inside = parts.high in
      let below =
        All-perm (λ x. fun p x) l (take i f) pl (any-take (λ x. fun p x) i f d parts.before) in
      let above =
        All-perm (λ y. fun y p) r (drop (suc i) f) pr
          (any-drop (λ y. fun y p) (suc i) f d
            (λ k h b. parts.behind k (omega arith) (omega (arith, size)))) in
      let whole : Perm (l ++ (p ∷ r)) f =
        rw (cut_at i f d (omega (arith, size, inside))) at (Perm.append pl (Perm.cons p pr)) in
      (
        l ++ (p ∷ r),
        ground (arith, big, parted, el, er),
        join-IsSorted p l r sl sr below above,
        Perm.trans whole parts.same,
      )

  -- quicksort with a strict order, and with more fuel than there are elements, ends with a
  -- permutation of the array in which no element comes before an earlier one.
  pub quicksort-Sorts : (fuel : ℕ) (xs : List A) → length xs < fuel → Sorts fuel xs
  unfolding quicksort
  quicksort-Sorts zero xs enough = absurd (omega arith)
  quicksort-Sorts (suc fuel) xs enough = elim (Bool-cases (ltb 10 (length xs))) [
    | inl big ↦
        let ((i, f), parted, parts) = partition-Parts fun d order xs (ground arith) in
        let size = parts.size in
        let high = parts.high in
        join-Sorts fuel xs i f big parted parts
          (quicksort-Sorts fuel (take i f) (omega (arith, length-take i f)))
          (quicksort-Sorts fuel (drop (suc i) f) (omega (arith, length-drop (suc i) f)))
    | inr small ↦
        let (sorted, same) = insertionsort-IsSorted fun d order xs in
        (insertionsort fun d xs, ground (arith, small), sorted, same)
  ]
