-- ===== src/Vectors/Growth.antt =====
-- The capacity is always enough, so a vector is the list of its elements.
use mathlib.Core.List.{append-nil, append_assoc}
use spaghettimod.Prelude.{
  ℕ, zero, suc, ◌+◌, ◌/◌, ◌≤◌, ◌<◌, ◌≡◌, refl, sym, ap, ◌∙◌, ◌⊎◌, inl, inr, List, [], ◌∷◌, ◌++◌,
  Option, none, some, arith, if◌then◌else◌, leb, length, take, length-append, length-take,
  Bool-cases, if-both, ltb, ◌>>=◌, ◌==◌,
}
use spaghettimod.Vectors.{
  Vector, min_size, grow, new_capacity, growbuf, append, add, shrink, add_all, assign, Op, added,
  shrunk, assigned, perform, perform_all,
}

-- A capacity from which `grow` can go on.
abbrev pub IsCapacity : ℕ → Type 0
IsCapacity n = (n ≡ 0) ⊎ (min_size ≤ n)

-- The result is there, and satisfies `P`.
abbrev Gives : {A : Type 0} → (A → Type 0) → Option A → Type 0
Gives P o = (x : _) × (o ≡ some x) × P x

grow_ends :
    (fuel sz n : ℕ)
    → sz < n + fuel
    → 0 < fuel
    → min_size ≤ n
    → Gives (λ m. (sz ≤ m) × (min_size ≤ m)) (grow fuel sz n)
unfolding grow
grow_ends zero sz n h some_fuel big = absurd (omega arith)
grow_ends (suc fuel) sz n h some_fuel big =
    if-both (Gives (λ m. (sz ≤ m) × (min_size ≤ m))) (ltb n sz) (grow fuel sz (n + n / 2)) (some n)
      (λ e. grow_ends fuel sz (n + n / 2) (ground arith) (ground arith) (ground arith))
      (λ e. (n, refl, (ground arith, big)))

new_capacity_ends :
    (sz n : ℕ) → IsCapacity n → Gives (λ m. (sz ≤ m) × (min_size ≤ m)) (new_capacity sz n)
unfolding new_capacity
new_capacity_ends sz n ok =
    if-both (Gives (λ m. (sz ≤ m) × (min_size ≤ m))) (n == 0)
      (some (if ltb min_size sz then sz else min_size)) (grow (suc sz) sz n)
      (λ e. (_, refl, (ground arith, ground arith)))
      (λ e. grow_ends (suc sz) sz n (ground arith) (omega arith) (ground arith))

module _ {A : Type 0} where
  abbrev pub IsValid : Vector A → Type 0
  IsValid v = IsCapacity v.alen × (length v.elems ≤ v.alen)

  abbrev Has : List A → Vector A → Type 0
  Has xs v = (v.elems ≡ xs) × IsValid v

  growbuf_ends :
      (sz : ℕ) (v : Vector A)
      → IsValid v
      → length v.elems ≤ sz
      → Gives (λ w. Has v.elems w × (sz ≤ w.alen)) (growbuf sz v)
  unfolding growbuf
  growbuf_ends sz v ok fits =
      let (n, e, (enough, big)) = new_capacity_ends sz v.alen ok.0 in
      (
        record v { alen = n },
        rw e (ground (arith, fits, enough)),
        ((refl, (inr big, omega arith)), enough),
      )

  append_ends :
      (x : A) (v : Vector A)
      → IsValid v
      → length v.elems < v.alen
      → Gives (Has (v.elems ++ (x ∷ []))) (append x v)
  unfolding append
  append_ends x v ok room = (
    record v { elems = v.elems ++ (x ∷ []) },
    ground (arith, room),
    (refl, (ok.0, omega (arith, length-append v.elems (x ∷ [])))),
  )

  add_ends : (x : A) (v : Vector A) → IsValid v → Gives (Has (v.elems ++ (x ∷ []))) (add x v)
  unfolding add
  add_ends x v ok =
      let (w, ew, ((same, valid), room)) =
        if-both (Gives (λ w. Has v.elems w × (length v.elems < w.alen))) (length v.elems == v.alen)
          (growbuf (length v.elems + 1) v) (some v)
          (λ e.
            let (w, ew, (has, enough)) = growbuf_ends (length v.elems + 1) v ok (omega arith) in
            (w, ew, (has, omega (arith, enough))))
          (λ e. (v, refl, ((refl, ok), ground (arith, ok.1)))) in
      let (u, eu, (all, valid2)) = append_ends x w valid (omega (arith, ap length same, room)) in
      (u, rw (ew, eu) refl, (all ∙ ap (λ xs. xs ++ (x ∷ [])) same, valid2))

  add_all_ends :
      (xs : List A) (v : Vector A) → IsValid v → Gives (Has (v.elems ++ xs)) (add_all xs v)
  unfolding add_all
  add_all_ends [] v ok = (v, refl, (sym (append-nil v.elems), ok))
  add_all_ends (x ∷ xs) v ok =
      let (w, ew, (same, valid)) = add_ends x v ok in
      let (u, eu, (all, valid2)) = add_all_ends xs w valid in
      (
        u,
        rw (ew, eu) refl,
        (all ∙ ap (λ l. l ++ xs) same ∙ append_assoc v.elems (x ∷ []) xs, valid2),
      )

  shrink_ends :
      (i : ℕ) (v : Vector A)
      → IsValid v
      → i ≤ length v.elems
      → Gives (Has (take i v.elems)) (shrink i v)
  unfolding shrink
  shrink_ends i v ok h =
      (_, ground arith, (refl, (ok.0, omega (arith, length-take i v.elems, ok.1))))

  shrink-zero : (v : Vector A) → shrink 0 v ≡ some (record v { elems = [] })
  unfolding shrink
  shrink-zero v = ground arith

  assign_ends : (xs : List A) (v : Vector A) → IsValid v → Gives (Has xs) (assign xs v)
  unfolding assign
  assign_ends xs v ok =
      let emptied : Vector A = record v { elems = [] } in
      let valid : IsValid emptied = (ok.0, omega arith) in
      let (grown, e1, (same, valid1)) =
        if-both (Gives (Has emptied.elems)) (ltb v.alen (length xs)) (growbuf (length xs) emptied)
          (some emptied)
          (λ e.
            let (w, ew, (h, enough)) = growbuf_ends (length xs) emptied valid (omega arith) in
            (w, ew, h))
          (λ e. (emptied, refl, (refl, valid))) in
      let (w, e2, (all, valid2)) = add_all_ends xs grown valid1 in
      (w, rw (shrink-zero v, e1, e2) refl, (all ∙ ap (λ l. l ++ xs) same, valid2))

  -- The same on lists: a list cannot be shrunk to more than it has.
  unfoldable pub on_list : Op A → List A → Option (List A)
  on_list (added x) xs = some (xs ++ (x ∷ []))
  on_list (shrunk i) xs = if leb i (length xs) then some (take i xs) else none
  on_list (assigned ys) xs = some ys

  unfoldable pub all_on_list : List (Op A) → List A → Option (List A)
  all_on_list [] xs = some xs
  all_on_list (op ∷ ops) xs = do ys ← on_list op xs; all_on_list ops ys

  abbrev pub elements : Option (Vector A) → Option (List A)
  elements none = none
  elements (some v) = some v.elems

  perform_ends :
      (op : Op A) (v : Vector A)
      → IsValid v
      → ((perform op v ≡ none) × (on_list op v.elems ≡ none))
        ⊎ ((xs : List A) × (on_list op v.elems ≡ some xs) × Gives (Has xs) (perform op v))
  unfolding perform on_list shrink
  perform_ends (added x) v ok = inr (_, refl, add_ends x v ok)
  perform_ends (shrunk i) v ok = elim (Bool-cases (leb i (length v.elems))) [
    | inl e ↦ inr (take i v.elems, rw e refl, shrink_ends i v ok (ground arith))
    | inr e ↦ inl (rw e refl, rw e refl)
  ]
  perform_ends (assigned ys) v ok = inr (ys, refl, assign_ends ys v ok)

  -- On a vector without capacity, or with one of 8 and more that its elements fit, any sequence of
  -- `add`, `shrink` and assignments ends, without a write past the capacity, with the elements
  -- that the same sequence gives on lists; it fails just when it shrinks to more elements than
  -- there are.
  pub perform_all-elements :
      (ops : List (Op A)) (v : Vector A)
      → IsValid v
      → elements (perform_all ops v) ≡ all_on_list ops v.elems
  unfolding perform_all all_on_list
  perform_all-elements [] v ok = refl
  perform_all-elements (op ∷ ops) v ok = elim (perform_ends op v ok) [
    | inl (e, f) ↦ rw (e, f) refl
    | inr (xs, e, (w, f, (same, valid))) ↦ rw (e, f, perform_all-elements ops w valid, same) refl
  ]
