-- ===== src/Sort/Hole.antt =====
-- An array of which one element is held outside: the moves of `quicksort` on it.
use mathlib.Core.List.{Perm}
use mathlib.Core.List.Perm
use mathlib.Core.Path.{subst}
use spaghettimod.Prelude.{
  ℕ_discrete, ℕ, zero, suc, ◌<◌, ◌≡◌, Bool, List, [], ◌∷◌, arith, length, get_or, set, length-set,
  get_or-set_self, get_or-set_ne,
}
use spaghettimod.Sort.{swap}

module _ {A : Type 0} (d : A) where
  -- What a write puts in and the old array are what it takes out and the new array.
  write_out :
      (w : A) (k : ℕ) (ys : List A) → k < length ys → Perm (w ∷ ys) (get_or ys k d ∷ set ys k w)
  write_out w k [] inside = absurd (omega arith)
  write_out w zero (y ∷ ys) inside = Perm.swap y w ys
  write_out w (suc k) (y ∷ ys) inside = Perm.trans (Perm.swap y w ys) (
      Perm.trans (Perm.cons y (write_out w k ys (omega arith)))
        (Perm.swap (get_or ys k d) y (set ys k w)))

  -- The element at `k` is still there after it is copied to `m`.
  copy : (a : List A) (m k : ℕ) → m < length a → get_or (set a m (get_or a k d)) k d ≡ get_or a k d
  copy a m k hm = elim (ℕ_discrete m k) [
    | yes e ↦
        subst (λ x. get_or (set a m (get_or a x d)) x d ≡ get_or a x d) e
          (get_or-set_self a m (get_or a m d) d hm)
    | no e ↦ get_or-set_ne a m k (get_or a k d) d e
  ]

  -- With `p` in the place `m` the array has the elements of `a0`.
  abbrev pub Hole : A → List A → ℕ → List A → Type 0
  Hole p a m a0 = Perm (p ∷ a) (get_or a m d ∷ a0)

  -- The element at `k` moves into the hole, and leaves one.
  pub fill :
      (p : A) (a a0 : List A) (m k : ℕ)
      → m < length a
      → k < length a
      → Hole p a m a0
      → Hole p (set a m (get_or a k d)) k a0
  fill p a a0 m k hm hk hole =
      let p1 =
        Perm.trans (Perm.swap p (get_or a m d) (set a m (get_or a k d)))
          (Perm.cons p (Perm.symm (write_out (get_or a k d) m a hm))) in
      let p2 =
        Perm.trans p1 (Perm.trans (Perm.swap (get_or a k d) p a) (Perm.cons (get_or a k d) hole)) in
      rw (copy a m k hm)
        (Perm.cons_inv (Perm.trans p2 (Perm.swap (get_or a m d) (get_or a k d) a0)))

  pub plug : (p : A) (a a0 : List A) (m : ℕ) → m < length a → Hole p a m a0 → Perm (set a m p) a0
  plug p a a0 m hm hole = Perm.cons_inv (Perm.trans (Perm.symm (write_out p m a hm)) hole)

  pub swap-perm :
      (fun : A → A → Bool) (a : List A) (i j : ℕ)
      → i < length a
      → j < length a
      → Perm (swap fun d a i j) a
  swap-perm fun a i j hi hj =
      plug (get_or a i d) (set a i (get_or a j d)) a j
        (omega (arith, length-set a i (get_or a j d)))
        (fill (get_or a i d) a a i j hi hj (Perm.refl (get_or a i d ∷ a)))
