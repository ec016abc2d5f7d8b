-- ===== src/Sort/Insertion.antt =====
-- The rounds of `insertionsort` insert into a reversed list that is sorted.
pub mod Whole
use mathlib.Core.List.{Perm, Pairwise, append-nil, append_assoc}
use mathlib.Core.List.Perm
use spaghettimod.Prelude.{
  ℕ, zero, suc, ◌-◌, ◌+◌, ◌<◌, ◌≡◌, refl, sym, ap, ◌∙◌, Bool, true, false, List, [], ◌∷◌, ◌++◌,
  arith, if◌then◌else◌, length, get_or, set, All, if-both,
}
use spaghettimod.Prelude.Loop.{for_each, for_each_count}
use spaghettimod.Sort.{shift_up, insert_round, insertionsort}

-- The reversed list `xs` and then `ys`.
abbrev pub behind : {A : Type 0} → List A → List A → List A
behind [] ys = ys
behind (x ∷ xs) ys = behind xs (x ∷ ys)

module _ {A : Type 0} where
  get_or-behind :
      (xs ys : List A) (k : ℕ) (d : A) → get_or (behind xs ys) (length xs + k) d ≡ get_or ys k d
  get_or-behind [] ys k d = ap (λ i. get_or ys i d) (omega arith)
  get_or-behind (x ∷ xs) ys k d =
      ap (λ i. get_or (behind xs (x ∷ ys)) i d) (omega arith) ∙ get_or-behind xs (x ∷ ys) (suc k) d

  set-behind :
      (xs ys : List A) (k : ℕ) (z : A)
      → set (behind xs ys) (length xs + k) z ≡ behind xs (set ys k z)
  set-behind [] ys k z = ap (λ i. set ys i z) (omega arith)
  set-behind (x ∷ xs) ys k z =
      ap (λ i. set (behind xs (x ∷ ys)) i z) (omega arith) ∙ set-behind xs (x ∷ ys) (suc k) z

  pub length-behind : (xs ys : List A) → length (behind xs ys) ≡ length xs + length ys
  length-behind [] ys = omega arith
  length-behind (x ∷ xs) ys = omega (arith, length-behind xs (x ∷ ys))

  All-both : (P Q : A → Type 0) (xs : List A) → All P xs → All Q xs → All (λ x. P x × Q x) xs
  All-both P Q [] p q = tt
  All-both P Q (x ∷ xs) p q = ((p.0, q.0), All-both P Q xs p.1 q.1)

  last_get :
      (ys : List A) (y : A) (rest : List A) (d : A)
      → get_or (behind ys (y ∷ rest)) (length ys) d ≡ y
  last_get ys y rest d =
      ap (λ i. get_or (behind ys (y ∷ rest)) i d) (omega arith) ∙ get_or-behind ys (y ∷ rest) 0 d

  next_get :
      (ys : List A) (y x : A) (rest : List A) (d : A)
      → get_or (behind ys (y ∷ x ∷ rest)) (suc (length ys)) d ≡ x
  next_get ys y x rest d =
      ap (λ i. get_or (behind ys (y ∷ x ∷ rest)) i d) (omega arith)
      ∙ get_or-behind ys (y ∷ x ∷ rest) 1 d

  last_set :
      (ys : List A) (y h z : A) (rest : List A)
      → set (behind ys (y ∷ h ∷ rest)) (suc (length ys)) z ≡ behind ys (y ∷ z ∷ rest)
  last_set ys y h z rest =
      ap (λ i. set (behind ys (y ∷ h ∷ rest)) i z) (omega arith) ∙ set-behind ys (y ∷ h ∷ rest) 1 z

  -- Every pair of entries is related, the earlier first.
  abbrev pub Ordered : (A → A → Type 0) → List A → Type 0
  Ordered R [] = Unit
  Ordered R (x ∷ xs) = All (R x) xs × Ordered R xs

-- What a comparison has to be: no two elements come before each other, and not coming before is
-- transitive.
pub record StrictOrder {A : Type 0} (fun : A → A → Bool) : Type 0 where
  pub asym : (x y : A) → fun x y ≡ true → fun y x ≡ false
  pub weak : (x y z : A) → fun x y ≡ false → fun y z ≡ false → fun x z ≡ false

-- No entry comes before an earlier one.
abbrev pub IsSorted : {A : Type 0} → (A → A → Bool) → List A → Type 0
IsSorted fun = Ordered (λ x y. fun y x ≡ false)

module _ {A : Type 0} (fun : A → A → Bool) (d : A) where
  -- What the inner loop does to the part that is sorted, which is reversed here.
  unfoldable pub ins : A → List A → List A
  ins x [] = x ∷ []
  ins x (y ∷ ys) = let rest = ins x ys in if fun x y then y ∷ rest else x ∷ y ∷ ys

  shift_up-behind :
      (tmp : A) (ys : List A) (h : A) (rest : List A)
      → shift_up fun d tmp (length ys) (behind ys (h ∷ rest)) ≡ behind (ins tmp ys) rest
  unfolding shift_up ins
  shift_up-behind tmp [] h rest = refl
  shift_up-behind tmp (y ∷ ys) h rest =
      rw (last_get ys y (h ∷ rest) d, last_set ys y h y rest, last_set ys y h tmp rest)
        (ground (arith, shift_up-behind tmp ys y (y ∷ rest)))

  pub insert_round-behind :
      (x y : A) (ys rest : List A)
      → insert_round fun d (length ys) (behind (y ∷ ys) (x ∷ rest)) ≡ behind (ins x (y ∷ ys)) rest
  unfolding insert_round ins
  insert_round-behind x y ys rest =
      rw (last_get ys y (x ∷ rest) d, next_get ys y x rest d, last_set ys y x y rest)
        (ground (arith, shift_up-behind x ys y (y ∷ rest)))

  All-ins : (P : A → Type 0) (x : A) (ys : List A) → P x → All P ys → All P (ins x ys)
  unfolding ins
  All-ins P x [] p all = (p, tt)
  All-ins P x (y ∷ ys) p all =
      if-both (All P) (fun x y) (y ∷ ins x ys) (x ∷ y ∷ ys) (λ e. (all.0, All-ins P x ys p all.1))
        (λ e. (p, all))

  pub length-ins : (x : A) (ys : List A) → length (ins x ys) ≡ suc (length ys)
  unfolding ins
  length-ins x [] = refl
  length-ins x (y ∷ ys) = ground (arith, length-ins x ys)

  pub ins-perm : (x : A) (ys : List A) → Perm (ins x ys) (x ∷ ys)
  unfolding ins
  ins-perm x [] = Perm.refl (x ∷ [])
  ins-perm x (y ∷ ys) =
      if-both (λ l. Perm l (x ∷ y ∷ ys)) (fun x y) (y ∷ ins x ys) (x ∷ y ∷ ys)
        (λ e. Perm.trans (Perm.cons y (ins-perm x ys)) (Perm.swap x y ys))
        (λ e. Perm.refl (x ∷ y ∷ ys))

  -- Sorted from the back.
  abbrev pub IsReversed : List A → Type 0
  IsReversed = Ordered (λ x y. fun x y ≡ false)

  module _ (order : StrictOrder fun) where
    after_all :
        (x y : A) (ys : List A)
        → fun x y ≡ false
        → All (λ z. fun y z ≡ false) ys
        → All (λ z. fun x z ≡ false) ys
    after_all x y [] e all = tt
    after_all x y (z ∷ ys) e all = (order.weak x y z e all.0, after_all x y ys e all.1)

    pub ins-IsReversed : (x : A) (ys : List A) → IsReversed ys → IsReversed (ins x ys)
    unfolding ins
    ins-IsReversed x [] sorted = (tt, tt)
    ins-IsReversed x (y ∷ ys) sorted =
        if-both IsReversed (fun x y) (y ∷ ins x ys) (x ∷ y ∷ ys)
          (λ e. (
            All-ins (λ z. fun y z ≡ false) x ys (order.asym x y e) sorted.0,
            ins-IsReversed x ys sorted.1,
          ))
          (λ e. ((e, after_all x y ys e sorted.0), sorted))

  pub behind-IsSorted :
      (xs ys : List A)
      → IsReversed xs
      → IsSorted fun ys
      → All (λ x. All (λ y. fun y x ≡ false) ys) xs
      → IsSorted fun (behind xs ys)
  behind-IsSorted [] ys rev sorted cross = sorted
  behind-IsSorted (x ∷ xs) ys rev sorted cross =
      behind-IsSorted xs (x ∷ ys) rev.1 (cross.0, sorted)
        (All-both (λ z. fun x z ≡ false) (λ z. All (λ y. fun y z ≡ false) ys) xs rev.0 cross.1)
