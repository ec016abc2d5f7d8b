-- ===== src/Sort.antt =====
-- The sorting of arrays (shared/tools.h). A range of an array is the list of its elements, and
-- pointers into it are indices.
pub mod Insertion
pub mod Hole
pub mod Partition
pub mod Quick
mod Tests
use spaghettimod.Prelude.{
  ℕ, zero, suc, ◌-◌, ◌+◌, ◌/◌, Bool, true, false, List, ◌∷◌, ◌++◌, Option, none, some,
  if◌then◌else◌, ltb, leb, length, get_or, set, take, drop,
}
use spaghettimod.Prelude.Loop.{for_each}

abbrev pub after : {A B : Type 0} → Option A → (A → Option B) → Option B
after none f = none
after (some a) f = f a

-- How a scan of `quicksort` ends: at an element that it stops at, or with `goto partitioned`.
pub data Scan : Type 0 where
  found : ℕ → Scan
  partitioned : ℕ → Scan

-- `fun(x, y)` says that x comes before y; `d` is what a read out of range would give.
module _ {A : Type 0} (fun : A → A → Bool) (d : A) where
  -- The inner loop of `insertionsort`, with `*j` to be filled.
  unfoldable pub shift_up : A → ℕ → List A → List A
  shift_up tmp zero a = set a zero tmp
  shift_up tmp (suc j) a =
      let rest = shift_up tmp j (set a (suc j) (get_or a j d)) in
      if fun tmp (get_or a j d) then rest else set a (suc j) tmp

  -- The round of the index `i + 1`.
  unfoldable pub insert_round : ℕ → List A → List A
  insert_round i a =
      let tmp = get_or a (suc i) d in
      if fun tmp (get_or a i d) then shift_up tmp i (set a (suc i) (get_or a i d)) else a

  unfoldable pub insertionsort : List A → List A
  insertionsort a = for_each (length a - 1) insert_round a

  -- The pivot, and the array with its place at `mid`.
  unfoldable pub choose_pivot : List A → A × List A
  choose_pivot a =
      let e = length a - 1 in
      let mid = length a / 2 in
      let at_start = get_or a 0 d in
      let at_mid = get_or a mid d in
      let at_end = get_or a e d in
      if fun at_start at_mid
      then (if fun at_end at_start
          then (at_start, set (set a 0 at_end) e at_mid)
          else if fun at_end at_mid
          then (at_end, set a e at_mid)
          else (at_mid, a))
      else if fun at_start at_end
      then (at_start, set a 0 at_mid)
      else if fun at_mid at_end
      then (at_end, set (set a e at_start) 0 at_mid)
      else (at_mid, set (set a 0 at_end) e at_start)

  -- `while(fun(*i, pivot)) if(++i >= j) goto partitioned;`, where `j - i` rounds are enough.
  unfoldable pub scan_up : A → ℕ → ℕ → ℕ → List A → Scan
  scan_up pivot zero i j a = partitioned i
  scan_up pivot (suc fuel) i j a =
      let rest = scan_up pivot fuel (suc i) j a in
      if fun (get_or a i d) pivot
      then (if leb j (suc i) then partitioned (suc i) else rest)
      else found i

  -- `while(fun(pivot, *--j)) if(i >= j) goto partitioned;`
  unfoldable pub scan_down : A → ℕ → ℕ → ℕ → List A → Scan
  scan_down pivot zero i j a = partitioned i
  scan_down pivot (suc fuel) i j a =
      let rest = scan_down pivot fuel i (j - 1) a in
      if fun pivot (get_or a (j - 1) d)
      then (if leb (j - 1) i then partitioned i else rest)
      else found (j - 1)

  abbrev pub swap : List A → ℕ → ℕ → List A
  swap a i j = set (set a i (get_or a j d)) j (get_or a i d)

  -- The rest of a round of the `do` loop, with `i` at the element that the first scan found.
  abbrev pub second_stop :
      (ℕ → ℕ → List A → Option (ℕ × List A)) → ℕ → List A → Scan → Option (ℕ × List A)
  second_stop again i a (partitioned k) = some (k, a)
  second_stop again i a (found j) =
      let b = swap a i j in if ltb (suc i) j then again (suc i) j b else some (suc i, b)

  abbrev pub first_stop :
      (ℕ → ℕ → List A → Option (ℕ × List A)) → A → ℕ → List A → Scan → Option (ℕ × List A)
  first_stop again pivot j a (partitioned k) = some (k, a)
  first_stop again pivot j a (found i) = second_stop again i a (scan_down pivot (j - i) i j a)

  -- The `do` loop: the place of the pivot, and the array; `none` means that the fuel ran out.
  unfoldable pub part_loop : ℕ → A → ℕ → ℕ → List A → Option (ℕ × List A)
  part_loop zero pivot i j a = none
  part_loop (suc fuel) pivot i j a =
      first_stop (part_loop fuel pivot) pivot j a (scan_up pivot (j - i) i j a)

  -- `end[-2] = *i; *i = pivot;`
  abbrev pub place_pivot : A → ℕ × List A → ℕ × List A
  place_pivot pivot (i, a) = (i, set (set a (length a - 2) (get_or a i d)) i pivot)

  unfoldable pub partition : List A → Option (ℕ × List A)
  partition xs =
      let (pivot, a) = choose_pivot xs in
      let b = set a (length a / 2) (get_or a (length a - 2) d) in
      after (part_loop (length b) pivot 1 (length b - 2) b) (λ r. some (place_pivot pivot r))

  -- The two parts are disjoint, so which of them is sorted first makes no difference to the array.
  -- `none` means that the fuel ran out.
  unfoldable pub quicksort : ℕ → List A → Option (List A)
  quicksort zero xs = none
  quicksort (suc fuel) xs = elim (ltb 10 (length xs)) [
    | true ↦ after (partition xs) λ r. after (quicksort fuel (take r.0 r.1)) λ left.
        after (quicksort fuel (drop (suc r.0) r.1))
          λ right. some (left ++ (get_or r.1 r.0 d ∷ right))
    | false ↦ some (insertionsort xs)
  ]
