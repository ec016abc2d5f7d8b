-- ===== src/Sort/Insertion/Whole.antt =====
-- `insertionsort` sorts any array.
use mathlib.Core.List.{Perm, perm_middle}
use mathlib.Core.List.Perm
use spaghettimod.Prelude.{
  ℕ, suc, ◌-◌, ◌+◌, ◌<◌, ◌≡◌, refl, ap, ◌∙◌, Bool, false, List, [], ◌∷◌, ◌++◌, arith, length, All,
}
use spaghettimod.Prelude.Loop.{for_each, for_each_count}
use spaghettimod.Sort.{insert_round, insertionsort}
use spaghettimod.Sort.Insertion.{
  behind, StrictOrder, IsSorted, IsReversed, ins, insert_round-behind, ins-perm, length-ins,
  ins-IsReversed, behind-IsSorted,
}

module _ {A : Type 0} where
  behind-append : (xs ys : List A) → Perm (behind xs ys) (xs ++ ys)
  behind-append [] ys = Perm.refl ys
  behind-append (x ∷ xs) ys = Perm.trans (behind-append xs (x ∷ ys)) (perm_middle xs ys)

  behind-perm :
      (zs ws rest : List A) (x : A)
      → Perm zs (x ∷ ws)
      → Perm (behind zs rest) (behind ws (x ∷ rest))
  behind-perm zs ws rest x p = Perm.trans (behind-append zs rest) (
      Perm.trans (Perm.append_right rest p)
        (Perm.trans (Perm.symm (perm_middle ws rest)) (Perm.symm (behind-append ws (x ∷ rest)))))

module _ {A : Type 0} (fun : A → A → Bool) (d : A) (order : StrictOrder fun) (a0 : List A) where
  -- Before the round of index `i` the first `i + 1` elements are sorted.
  record Sorting (i : ℕ) (a : List A) : Type 0 where
    done : List A
    rest : List A
    shape : a ≡ behind done rest
    size : length done ≡ suc i
    total : length done + length rest ≡ length a0
    sorted : IsReversed fun d done
    same : Perm a a0

  insert_round-Sorting :
      (i : ℕ) (a : List A)
      → i < length a0 - 1
      → Sorting i a
      → Sorting (suc i) (insert_round fun d i a)
  insert_round-Sorting i a more s = step s.done s.rest s.shape s.size s.total s.sorted
    where
      step :
          (done rest : List A)
          → a ≡ behind done rest
          → length done ≡ suc i
          → length done + length rest ≡ length a0
          → IsReversed fun d done
          → Sorting (suc i) (insert_round fun d i a)
      step [] rest shape size total sorted = absurd (omega arith)
      step (y ∷ ys) [] shape size total sorted = absurd (omega arith)
      step (y ∷ ys) (x ∷ rest) shape size total sorted = record {
        done = ins fun d x (y ∷ ys);
        rest = rest;
        shape = round;
        size = omega (arith, length-ins fun d x (y ∷ ys));
        total = omega (arith, length-ins fun d x (y ∷ ys));
        sorted = ins-IsReversed fun d order x (y ∷ ys) sorted;
        same = rw round (
            Perm.trans
              (behind-perm (ins fun d x (y ∷ ys)) (y ∷ ys) rest x (ins-perm fun d x (y ∷ ys)))
              (rw shape at s.same));
      }
        where
          round : insert_round fun d i a ≡ behind (ins fun d x (y ∷ ys)) rest
          round =
              ap (λ k. insert_round fun d k a) (omega arith)
              ∙ ap (insert_round fun d (length ys)) shape
              ∙ insert_round-behind fun d x y ys rest

  no_later : (xs : List A) → All (λ x. All (λ y. fun y x ≡ false) []) xs
  no_later [] = tt
  no_later (x ∷ xs) = (tt, no_later xs)

  Sorting-end : (i : ℕ) (a : List A) → length a0 ≡ suc i → Sorting i a → IsSorted fun a × Perm a a0
  Sorting-end i a n s = (at_end s.rest (omega arith) s.shape, s.same)
    where
      at_end : (rest : List A) → length rest ≡ 0 → a ≡ behind s.done rest → IsSorted fun a
      at_end [] none_left shape =
          rw shape (behind-IsSorted fun d s.done [] s.sorted tt (no_later s.done))
      at_end (x ∷ rest) none_left shape = absurd (omega arith)

module _ {A : Type 0} (fun : A → A → Bool) (d : A) (order : StrictOrder fun) where
  -- insertionsort with a strict order gives a permutation of the array in which no element comes
  -- before an earlier one.
  pub insertionsort-IsSorted :
      (a : List A) → IsSorted fun (insertionsort fun d a) × Perm (insertionsort fun d a) a
  unfolding insertionsort for_each
  insertionsort-IsSorted [] = (tt, Perm.refl [])
  insertionsort-IsSorted (x ∷ a) =
      let rounds = length (x ∷ a) - 1 in
      Sorting-end fun d order (x ∷ a) rounds _ (omega arith) (
        for_each_count (Sorting fun d order (x ∷ a)) (insert_round fun d) rounds
          (λ i t. insert_round-Sorting fun d order (x ∷ a) i t) (x ∷ a)
          (record {
            done = x ∷ [];
            rest = a;
            shape = refl;
            size = refl;
            total = omega arith;
            sorted = (tt, tt);
            same = Perm.refl (x ∷ a);
          }))
