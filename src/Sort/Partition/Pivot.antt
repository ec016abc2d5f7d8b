-- ===== src/Sort/Partition/Pivot.antt =====
-- The choice of the pivot, and the whole partition of `quicksort`.
use mathlib.Core.List.Perm
use mathlib.Core.Path.{subst}
use spaghettimod.Prelude.{
  ℕ, ◌-◌, ◌/◌, ◌<◌, ◌≡◌, refl, ◌∙◌, Bool, true, false, List, arith, length, get_or, set, length-set,
  if◌then◌else◌, ◌==◌, if-both,
}
use spaghettimod.Sort.{choose_pivot}
use spaghettimod.Sort.Hole.{Hole, fill, swap-perm}
use spaghettimod.Sort.Insertion.{StrictOrder}
use spaghettimod.Sort.Partition.{get_or-set}

module _ {A : Type 0} (fun : A → A → Bool) (d : A) (order : StrictOrder fun) (a0 : List A)
    (big : 10 < length a0) where
  pub record Chosen (r : A × List A) : Type 0 where
    pub size : length r.1 ≡ length a0
    pub hole : Hole d r.0 r.1 (length a0 / 2) a0
    pub first : fun r.0 (get_or r.1 0 d) ≡ false
    pub last : fun (get_or r.1 (length a0 - 1) d) r.0 ≡ false

  fill_with :
      (p : A) (a : List A) (m k : ℕ) (v : A)
      → length a ≡ length a0
      → m < length a0
      → k < length a0
      → get_or a k d ≡ v
      → Hole d p a m a0
      → Hole d p (set a m v) k a0
  fill_with p a m k v size hm hk e hole =
      subst (λ x. Hole d p (set a m x) k a0) e
        (fill d p a a0 m k (omega (arith, size)) (omega (arith, size)) hole)

  abbrev e : ℕ
  e = length a0 - 1

  abbrev mid : ℕ
  mid = length a0 / 2

  abbrev at_start : A
  at_start = get_or a0 0 d

  abbrev at_mid : A
  at_mid = get_or a0 mid d

  abbrev at_end : A
  at_end = get_or a0 e d

  mid_start : (v : A) → get_or (set a0 0 v) mid d ≡ at_mid
  mid_start v = get_or-set fun d a0 0 mid v (omega arith) ∙ ground arith

  mid_end : (v : A) → get_or (set a0 e v) mid d ≡ at_mid
  mid_end v = get_or-set fun d a0 e mid v (omega arith) ∙ ground arith

  -- Two writes, at the start and at the end, in either order.
  start_end :
      (v w : A)
      → (get_or (set (set a0 0 v) e w) 0 d ≡ v)
        × (get_or (set (set a0 0 v) e w) e d ≡ w)
        × (get_or (set (set a0 0 v) e w) mid d ≡ at_mid)
  start_end v w =
      let size = length-set a0 0 v in
      let at : (k : ℕ)
          → get_or (set (set a0 0 v) e w) k d
            ≡ (if k == e then w else if k == 0 then v else get_or a0 k d) =
        λ k. ground (arith, size, get_or-set fun d (set a0 0 v) e k w, get_or-set fun d a0 0 k v) in
      (at 0 ∙ ground arith, at e ∙ ground arith, at mid ∙ ground arith)

  end_start :
      (v w : A) → (get_or (set (set a0 e w) 0 v) 0 d ≡ v) × (get_or (set (set a0 e w) 0 v) e d ≡ w)
  end_start v w =
      let size = length-set a0 e w in
      let at : (k : ℕ)
          → get_or (set (set a0 e w) 0 v) k d
            ≡ (if k == 0 then v else if k == e then w else get_or a0 k d) =
        λ k. ground (arith, size, get_or-set fun d (set a0 e w) 0 k v, get_or-set fun d a0 e k w) in
      (at 0 ∙ ground arith, at e ∙ ground arith)

  one_end : (v : A) → (get_or (set a0 e v) 0 d ≡ at_start) × (get_or (set a0 e v) e d ≡ v)
  one_end v = (
    get_or-set fun d a0 e 0 v (omega arith) ∙ ground arith,
    get_or-set fun d a0 e e v (omega arith) ∙ ground arith,
  )

  one_start : (v : A) → (get_or (set a0 0 v) 0 d ≡ v) × (get_or (set a0 0 v) e d ≡ at_end)
  one_start v = (
    get_or-set fun d a0 0 0 v (omega arith) ∙ ground arith,
    get_or-set fun d a0 0 e v (omega arith) ∙ ground arith,
  )

  -- The pivots when the start comes before the middle.
  Chosen-end_start_mid :
      fun at_start at_mid ≡ true
      → fun at_end at_start ≡ true
      → Chosen (at_start, set (set a0 0 at_end) e at_mid)
  Chosen-end_start_mid sm es = record {
    size = length-set (set a0 0 at_end) e at_mid ∙ length-set a0 0 at_end;
    hole =
        fill_with at_start (set a0 0 at_end) e mid at_mid (length-set a0 0 at_end) (omega arith)
          (omega arith) (mid_start at_end)
          (fill_with at_start a0 0 e at_end refl (omega arith) (omega arith) refl (Perm.refl _));
    first = rw ((start_end at_end at_mid).0) (order.asym at_end at_start es);
    last = rw ((start_end at_end at_mid).1) (order.asym at_start at_mid sm);
  }

  Chosen-start_end_mid :
      fun at_end at_start ≡ false → fun at_end at_mid ≡ true → Chosen (at_end, set a0 e at_mid)
  Chosen-start_end_mid es em = record {
    size = length-set a0 e at_mid;
    hole = fill_with at_end a0 e mid at_mid refl (omega arith) (omega arith) refl (Perm.refl _);
    first = rw ((one_end at_mid).0) es;
    last = rw ((one_end at_mid).1) (order.asym at_end at_mid em);
  }

  Chosen-start_mid_end :
      fun at_start at_mid ≡ true → fun at_end at_mid ≡ false → Chosen (at_mid, a0)
  Chosen-start_mid_end sm em = record {
    size = refl;
    hole = Perm.refl _;
    first = order.asym at_start at_mid sm;
    last = em;
  }

  -- The pivots when it does not.
  Chosen-mid_start_end :
      fun at_start at_mid ≡ false → fun at_start at_end ≡ true → Chosen (at_start, set a0 0 at_mid)
  Chosen-mid_start_end sm se = record {
    size = length-set a0 0 at_mid;
    hole = fill_with at_start a0 0 mid at_mid refl (omega arith) (omega arith) refl (Perm.refl _);
    first = rw ((one_start at_mid).0) sm;
    last = rw ((one_start at_mid).1) (order.asym at_start at_end se);
  }

  Chosen-mid_end_start :
      fun at_start at_end ≡ false
      → fun at_mid at_end ≡ true
      → Chosen (at_end, set (set a0 e at_start) 0 at_mid)
  Chosen-mid_end_start se me = record {
    size = length-set (set a0 e at_start) 0 at_mid ∙ length-set a0 e at_start;
    hole =
        fill_with at_end (set a0 e at_start) 0 mid at_mid (length-set a0 e at_start) (omega arith)
          (omega arith) (mid_end at_start)
          (fill_with at_end a0 e 0 at_start refl (omega arith) (omega arith) refl (Perm.refl _));
    first = rw ((end_start at_mid at_start).0) (order.asym at_mid at_end me);
    last = rw ((end_start at_mid at_start).1) se;
  }

  Chosen-end_mid_start :
      fun at_start at_mid ≡ false
      → fun at_mid at_end ≡ false
      → Chosen (at_mid, set (set a0 0 at_end) e at_start)
  Chosen-end_mid_start sm me = record {
    size = length-set (set a0 0 at_end) e at_start ∙ length-set a0 0 at_end;
    hole =
        rw ((start_end at_end at_start).2)
          (Perm.cons at_mid (swap-perm d fun a0 0 e (omega arith) (omega arith)));
    first = rw ((start_end at_end at_start).0) me;
    last = rw ((start_end at_end at_start).1) sm;
  }

  pub choose_pivot-Chosen : Chosen (choose_pivot fun d a0)
  unfolding choose_pivot
  choose_pivot-Chosen =
      if-both Chosen (fun at_start at_mid) _ _
        (λ sm. if-both Chosen (fun at_end at_start) _ _ (Chosen-end_start_mid sm) (λ es.
          if-both Chosen (fun at_end at_mid) _ _ (Chosen-start_end_mid es)
            (Chosen-start_mid_end sm)))
        (λ sm. if-both Chosen (fun at_start at_end) _ _ (Chosen-mid_start_end sm) (λ se.
          if-both Chosen (fun at_mid at_end) _ _ (Chosen-mid_end_start se)
            (Chosen-end_mid_start sm)))
