-- ===== src/Sort/Tests.antt =====
-- Sorts of numbers.
use spaghettimod.Prelude.{ℕ, ◌≡◌, refl, List, [], ◌∷◌, some, arith, ltb}
use spaghettimod.Prelude.Loop.{for_each}
use spaghettimod.Sort.{
  quicksort, partition, part_loop, choose_pivot, scan_up, scan_down, insertionsort, insert_round,
  shift_up,
}
use spaghettimod.Sort.Insertion.{StrictOrder}
use spaghettimod.Sort.Quick.{Sorts, quicksort-Sorts}

ltb-StrictOrder : StrictOrder ltb
ltb-StrictOrder = record { asym = λ x y h. ground arith; weak = λ x y z h k. ground arith }

abbrev numbers : List ℕ
numbers = 7 ∷ 3 ∷ 9 ∷ 1 ∷ 12 ∷ 5 ∷ 7 ∷ 0 ∷ 11 ∷ 2 ∷ 8 ∷ 4 ∷ []

insertionsort-numbers :
    insertionsort ltb 0 numbers ≡ 0 ∷ 1 ∷ 2 ∷ 3 ∷ 4 ∷ 5 ∷ 7 ∷ 7 ∷ 8 ∷ 9 ∷ 11 ∷ 12 ∷ []
unfolding insertionsort for_each insert_round shift_up
insertionsort-numbers = refl

quicksort-numbers :
    quicksort ltb 0 13 numbers ≡ some (0 ∷ 1 ∷ 2 ∷ 3 ∷ 4 ∷ 5 ∷ 7 ∷ 7 ∷ 8 ∷ 9 ∷ 11 ∷ 12 ∷ [])
unfolding quicksort partition part_loop choose_pivot scan_up scan_down insertionsort for_each
    insert_round shift_up
quicksort-numbers = refl

quicksort-Sorts_example : Sorts ltb 0 ltb-StrictOrder 13 numbers
quicksort-Sorts_example = quicksort-Sorts ltb 0 ltb-StrictOrder 13 numbers (omega arith)
