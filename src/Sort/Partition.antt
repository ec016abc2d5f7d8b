-- ===== src/Sort/Partition.antt =====
-- What the scans and the `do` loop of `quicksort` leave: the elements before `i` do not come after
-- the pivot, those from `j` on do not come before it.
pub mod Pivot
pub mod Place
use mathlib.Core.List.{Perm}
use mathlib.Core.List.Perm
use spaghettimod.Prelude.{
  ℕ, zero, suc, ◌-◌, ◌+◌, ◌≤◌, ◌<◌, ◌≡◌, ◌≢◌, refl, sym, ap, ◌∙◌, Bool, true, false, List, Option,
  none, some, [], ◌∷◌, arith, length, get_or, set, length-set, get_or-set_self, get_or-set_ne,
  if◌then◌else◌, ltb, leb, ◌==◌, if-both, ℕ_discrete,
}
use spaghettimod.Sort.{
  Scan, found, partitioned, scan_up, scan_down, swap, first_stop, second_stop, part_loop,
}
use spaghettimod.Sort.Hole.{Hole, swap-perm}
use spaghettimod.Sort.Insertion.{StrictOrder}

module _ {A : Type 0} (fun : A → A → Bool) (d : A) where
  pub get_or-set :
      (a : List A) (i k : ℕ) (v : A)
      → i < length a
      → get_or (set a i v) k d ≡ (if k == i then v else get_or a k d)
  get_or-set [] i k v h = absurd (omega arith)
  get_or-set (x ∷ a) zero zero v h = refl
  get_or-set (x ∷ a) zero (suc k) v h = ground arith
  get_or-set (x ∷ a) (suc i) zero v h = ground arith
  get_or-set (x ∷ a) (suc i) (suc k) v h = ground (arith, get_or-set a i k v)

  get_or-swap :
      (a : List A) (i j k : ℕ)
      → i < length a
      → j < length a
      → get_or (swap fun d a i j) k d
        ≡ (if k == j then get_or a i d else if k == i then get_or a j d else get_or a k d)
  get_or-swap a i j k hi hj =
      let size = length-set a i (get_or a j d) in
      ground (
        arith,
        size,
        get_or-set (set a i (get_or a j d)) j k (get_or a i d),
        get_or-set a i k (get_or a j d),
      )

module _ {A : Type 0} (fun : A → A → Bool) (d : A) (order : StrictOrder fun) (p : A) (n : ℕ)
    (a0 : List A) where
  -- The pivot is held outside, and its place is `n - 2`.
  pub record Split (i j : ℕ) (a : List A) : Type 0 where
    pub size : length a ≡ n
    pub hole : Hole d p a (n - 2) a0
    pub left : (k : ℕ) → k < i → fun p (get_or a k d) ≡ false
    pub right : (k : ℕ) → j ≤ k → k < n → k ≢ n - 2 → fun (get_or a k d) p ≡ false

  pub record Done (i : ℕ) (a : List A) : Type 0 where
    pub split : Split i i a
    pub low : 0 < i
    pub high : i ≤ n - 2

  abbrev UpOk : ℕ → ℕ → List A → Scan → Type 0
  UpOk from j a (partitioned k) = Done k a
  UpOk from j a (found k) =
      (from ≤ k) × (0 < k) × (k < j) × Split k j a × (fun (get_or a k d) p ≡ false)

  scan_up-UpOk :
      (from fuel i j : ℕ) (a : List A)
      → from ≤ i
      → j ≤ i + fuel
      → 0 < i
      → i < j
      → j ≤ n - 2
      → Split i j a
      → UpOk from j a (scan_up fun d p fuel i j a)
  unfolding scan_up
  scan_up-UpOk from zero i j a start enough low less high s = absurd (omega arith)
  scan_up-UpOk from (suc fuel) i j a start enough low less high s =
      if-both (UpOk from j a) (fun (get_or a i d) p)
        (if leb j (suc i) then partitioned (suc i) else scan_up fun d p fuel (suc i) j a) (found i)
        (λ e.
          if-both (UpOk from j a) (leb j (suc i)) (partitioned (suc i))
            (scan_up fun d p fuel (suc i) j a)
            (λ last. record {
              split = more (suc i) (ground arith) e;
              low = omega arith;
              high = omega arith;
            })
            (λ further.
              scan_up-UpOk from fuel (suc i) j a (omega arith) (omega arith) (omega arith)
                (ground arith) high (more j (omega arith) e)))
        (λ e. (start, low, less, s, e))
    where
      more : (j' : ℕ) → j ≤ j' → fun (get_or a i d) p ≡ true → Split (suc i) j' a
      more j' h e = record {
        size = s.size;
        hole = s.hole;
        left = λ k below. elim (ℕ_discrete k i) [
          | yes same ↦ rw same (order.asym (get_or a i d) p e)
          | no other ↦ s.left k (omega arith)
        ];
        right = λ k above. s.right k (omega arith);
      }

  abbrev DownOk : ℕ → ℕ → List A → Scan → Type 0
  DownOk upto i a (partitioned k) = Done k a
  DownOk upto i a (found k) =
      (i ≤ k) × (k < upto) × Split i (suc k) a × (fun p (get_or a k d) ≡ false)

  scan_down-DownOk :
      (upto fuel i j : ℕ) (a : List A)
      → j ≤ upto
      → upto ≤ n - 2
      → j ≤ i + fuel
      → 0 < i
      → i < j
      → Split i j a
      → DownOk upto i a (scan_down fun d p fuel i j a)
  unfolding scan_down
  scan_down-DownOk upto zero i j a last high enough low less s = absurd (omega arith)
  scan_down-DownOk upto (suc fuel) i j a bound high enough low less s =
      if-both (DownOk upto i a) (fun p (get_or a (j - 1) d))
        (if leb (j - 1) i then partitioned i else scan_down fun d p fuel i (j - 1) a)
        (found (j - 1))
        (λ e.
          if-both (DownOk upto i a) (leb (j - 1) i) (partitioned i)
            (scan_down fun d p fuel i (j - 1) a)
            (λ last. record { split = back i (ground arith) e; low = low; high = omega arith })
            (λ further.
              scan_down-DownOk upto fuel i (j - 1) a (omega arith) high (omega arith) low
                (ground arith) (back (j - 1) (omega arith) e)))
        (λ e. (omega arith, omega arith, rw (last_index less) s, e))
    where
      last_index : {i j : ℕ} → i < j → suc (j - 1) ≡ j
      last_index h = omega arith

      back : (j' : ℕ) → j - 1 ≤ j' → fun p (get_or a (j - 1) d) ≡ true → Split i j' a
      back j' h e = record {
        size = s.size;
        hole = s.hole;
        left = s.left;
        right = λ k above below other. elim (ℕ_discrete k (j - 1)) [
          | yes same ↦ rw same (order.asym p (get_or a (j - 1) d) e)
          | no further ↦ s.right k (omega arith) below other
        ];
      }

  swap-Split :
      (i k : ℕ) (a : List A)
      → i ≤ k
      → k < n - 2
      → fun (get_or a i d) p ≡ false
      → fun p (get_or a k d) ≡ false
      → Split i (suc k) a
      → Split (suc i) k (swap fun d a i k)
  swap-Split i k a low high up down s =
      let size = s.size in
      let at : (m : ℕ)
          → get_or (swap fun d a i k) m d
            ≡ (if m == k then get_or a i d else if m == i then get_or a k d else get_or a m d) =
        λ m. get_or-swap fun d a i k m (omega (arith, size)) (omega (arith, size)) in
      let kept : get_or (swap fun d a i k) (n - 2) d ≡ get_or a (n - 2) d =
        ground (arith, at (n - 2)) in
      let same = swap-perm d fun a i k (omega (arith, size)) (omega (arith, size)) in
      record {
        size =
            length-set (set a i (get_or a k d)) k (get_or a i d)
            ∙ length-set a i (get_or a k d)
            ∙ size;
        hole = rw kept (Perm.trans (Perm.cons p same) s.hole);
        left = λ m below. rw (at m) (ground (arith, s.left m, up, down));
        right = λ m above below other. rw (at m) (ground (arith, s.right m, up, down));
      }

  -- A result, with the pivot's place found.
  abbrev pub Good : Option (ℕ × List A) → Type 0
  Good o = (r : ℕ × List A) × (o ≡ some r) × Done r.0 r.1

  second_stop-Good :
      (again : ℕ → ℕ → List A → Option (ℕ × List A)) (upto i : ℕ) (a : List A) (sc : Scan)
      → 0 < i
      → upto ≤ n - 2
      → fun (get_or a i d) p ≡ false
      → DownOk upto i a sc
      → ((k : ℕ) (b : List A) → k < upto → suc i < k → Split (suc i) k b → Good (again (suc i) k b))
      → Good (second_stop fun d again i a sc)
  second_stop-Good again upto i a (partitioned k) low high e done rest = ((k, a), refl, done)
  second_stop-Good again upto i a (found k) low high e (from, below, s, e') rest =
      let b = swap fun d a i k in
      let split = swap-Split i k a from (omega arith) e e' s in
      if-both Good (ltb (suc i) k) (again (suc i) k b) (some (suc i, b))
        (λ further. rest k b below (ground arith) split)
        (λ last. (
          (suc i, b),
          refl,
          record {
            split = record {
              size = split.size;
              hole = split.hole;
              left = split.left;
              right = λ m above. split.right m (ground (arith, above));
            };
            low = omega arith;
            high = omega arith;
          },
        ))

  first_stop-Good :
      (again : ℕ → ℕ → List A → Option (ℕ × List A)) (from j : ℕ) (a : List A) (sc : Scan)
      → j ≤ n - 2
      → UpOk from j a sc
      → ((i k : ℕ) (b : List A)
          → from ≤ i
          → k < j
          → suc i < k
          → Split (suc i) k b
          → Good (again (suc i) k b))
      → Good (first_stop fun d again p j a sc)
  first_stop-Good again from j a (partitioned k) high done rest = ((k, a), refl, done)
  first_stop-Good again from j a (found i) high (start, low, less, s, e) rest =
      second_stop-Good again j i a (scan_down fun d p (j - i) i j a) low high e
        (scan_down-DownOk j (j - i) i j a (omega arith) high (omega arith) low less s)
        (λ k b. rest i k b start)

  pub part_loop-Good :
      (fuel i j : ℕ) (a : List A)
      → j < i + fuel
      → 0 < i
      → i < j
      → j ≤ n - 2
      → Split i j a
      → Good (part_loop fun d fuel p i j a)
  unfolding part_loop
  part_loop-Good zero i j a enough low less high s = absurd (omega arith)
  part_loop-Good (suc fuel) i j a enough low less high s =
      first_stop-Good (part_loop fun d fuel p) i j a (scan_up fun d p (j - i) i j a) high
        (scan_up-UpOk i (j - i) i j a (omega arith) (omega arith) low less high s)
        (λ i' k b from below gap split.
          part_loop-Good fuel (suc i') k b (omega arith) (omega arith) gap (omega arith) split)
