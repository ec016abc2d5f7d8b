-- ===== src/Sort/Partition/Place.antt =====
-- The pivot in its place: what the partition of `quicksort` leaves.
use mathlib.Core.List.{Perm}
use mathlib.Core.Path.{subst}
use spaghettimod.Prelude.{
  ℕ, suc, ◌-◌, ◌/◌, ◌≤◌, ◌<◌, ◌≡◌, ◌≢◌, sym, ap, ◌∙◌, Bool, false, List, some, arith, length,
  get_or, set, length-set, if◌then◌else◌, ◌==◌,
}
use spaghettimod.Sort.{choose_pivot, part_loop, place_pivot, partition, after}
use spaghettimod.Sort.Hole.{fill, plug}
use spaghettimod.Sort.Insertion.{StrictOrder}
use spaghettimod.Sort.Partition.{get_or-set, Split, Done, part_loop-Good}
use spaghettimod.Sort.Partition.Pivot.{Chosen, choose_pivot-Chosen}

module _ {A : Type 0} (fun : A → A → Bool) (d : A) where
  -- A place `i` with nothing after its element before it, and nothing before it behind it.
  pub record Parts (a0 : List A) (i : ℕ) (f : List A) : Type 0 where
    pub low : 0 < i
    pub high : suc i < length a0
    pub size : length f ≡ length a0
    pub same : Perm f a0
    pub before : (k : ℕ) → k < i → fun (get_or f i d) (get_or f k d) ≡ false
    pub behind : (k : ℕ) → i < k → k < length a0 → fun (get_or f k d) (get_or f i d) ≡ false

module _ {A : Type 0} (fun : A → A → Bool) (d : A) (order : StrictOrder fun) (a0 : List A)
    (big : 10 < length a0) where
  abbrev h : ℕ
  h = length a0 - 2

  start-Split :
      (p : A) (a : List A)
      → Chosen fun d order a0 big (p, a)
      → Split fun d order p (length a0) a0 1 h (set a (length a0 / 2) (get_or a h d))
  start-Split p a c =
      let size = c.size in
      let at : (k : ℕ)
          → get_or (set a (length a0 / 2) (get_or a h d)) k d
            ≡ (if k == length a0 / 2 then get_or a h d else get_or a k d) =
        λ k. get_or-set fun d a (length a0 / 2) k (get_or a h d) (omega (arith, size)) in
      record {
        size = length-set a (length a0 / 2) (get_or a h d) ∙ size;
        hole = fill d p a a0 (length a0 / 2) h (omega (arith, size)) (omega (arith, size)) c.hole;
        left =
            λ k below. rw (at k) (ground (arith, c.first, ap (λ j. get_or a j d) (at_first below)));
        right = λ k above below other.
            rw (at k) (ground (arith, c.last, ap (λ j. get_or a j d) (at_last above below other)));
      }
    where
      at_first : {k : ℕ} → k < 1 → k ≡ 0
      at_first below = omega arith

      at_last : {k : ℕ} → h ≤ k → k < length a0 → k ≢ h → k ≡ length a0 - 1
      at_last above below other = omega arith

  place-Parts :
      (p : A) (i : ℕ) (a : List A)
      → Done fun d order p (length a0) a0 i a
      → Parts fun d a0 i (set (set a h (get_or a i d)) i p)
  place-Parts p i a done =
      let s = done.split in
      let size = s.size in
      let low = done.low in
      let high = done.high in
      let size1 = length-set a h (get_or a i d) in
      let at : (k : ℕ)
          → get_or (set (set a h (get_or a i d)) i p) k d
            ≡ (if k == i then p else if k == h then get_or a i d else get_or a k d) =
        λ k. ground (
          arith,
          size,
          size1,
          get_or-set fun d (set a h (get_or a i d)) i k p,
          get_or-set fun d a h k (get_or a i d),
        ) in
      let here : get_or (set (set a h (get_or a i d)) i p) i d ≡ p = at i ∙ ground arith in
      record {
        low = low;
        high = omega arith;
        size = length-set (set a h (get_or a i d)) i p ∙ size1 ∙ size;
        same =
            plug d p (set a h (get_or a i d)) a0 i (omega (arith, size, size1))
              (fill d p a a0 h i (omega (arith, size)) (omega (arith, size)) s.hole);
        before = λ k below. rw (here, at k) (ground (arith, s.left k));
        behind = λ k above inside. rw (here, at k) (ground (arith, s.right k, s.right i));
      }

  -- The array from which the loop starts, for a length `m`.
  abbrev started : List A → ℕ → List A
  started a m = set a (m / 2) (get_or a (m - 2) d)

  partition_from :
      (p : A) (a : List A)
      → Chosen fun d order a0 big (p, a)
      → let b = started a (length a) in
        (r : ℕ × List A) × (after
            (part_loop fun d (length b) p 1 (length b - 2) b)
            (λ r. some (place_pivot fun d p r))
          ≡ some r)
        × Parts fun d a0 r.0 r.1
  partition_from p a c =
      let n = length a0 in
      let ((i, a'), ends, done) =
        part_loop-Good fun d order p n a0 n 1 h (started a n) (omega arith) (omega arith)
          (omega arith) (omega arith) (start-Split p a c) in
      let sized : part_loop fun d (length (started a n)) p 1 (length (started a n) - 2)
            (started a n)
          ≡ some (i, a') =
        subst (λ m. part_loop fun d m p 1 (m - 2) (started a n) ≡ some (i, a'))
          (sym (length-set a (n / 2) (get_or a h d) ∙ c.size)) ends in
      let own : part_loop fun d (length (started a (length a))) p 1
            (length (started a (length a)) - 2) (started a (length a))
          ≡ some (i, a') =
        subst
          (λ m.
            part_loop fun d (length (started a m)) p 1 (length (started a m) - 2) (started a m)
            ≡ some (i, a'))
          (sym c.size) sized in
      (
        place_pivot fun d p (i, a'),
        ap (λ o. after o (λ r. some (place_pivot fun d p r))) own,
        subst (λ m. Parts fun d a0 i (set (set a' (m - 2) (get_or a' i d)) i p))
            (sym done.split.size) (place-Parts p i a' done),
      )

  -- The partition of an array of more than ten elements ends.
  pub partition-Parts : (r : ℕ × List A) × (partition fun d a0 ≡ some r) × Parts fun d a0 r.0 r.1
  unfolding partition
  partition-Parts =
      partition_from (choose_pivot fun d a0).0 (choose_pivot fun d a0).1
        (choose_pivot-Chosen fun d order a0 big)
