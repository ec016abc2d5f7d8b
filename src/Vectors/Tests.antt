-- ===== src/Vectors/Tests.antt =====
-- A vector that grows three times, and shrinks.
use spaghettimod.Prelude.{ℕ, ◌≡◌, refl, List, [], ◌∷◌, inl, arith}
use spaghettimod.Vectors.{Vector, Op, added, shrunk, assigned, perform_all}
use spaghettimod.Vectors.Growth.{elements, all_on_list, perform_all-elements}

abbrev no_elements : Vector ℕ
no_elements = record { alen = 0; elems = [] }

abbrev history : List (Op ℕ)
history =
    added 1
    ∷ assigned (1 ∷ 2 ∷ 3 ∷ 4 ∷ 5 ∷ 6 ∷ 7 ∷ 8 ∷ 9 ∷ [])
    ∷ added 10
    ∷ added 11
    ∷ added 12
    ∷ added 13
    ∷ shrunk 2
    ∷ added 14
    ∷ []

perform_all-elements_example : elements (perform_all history no_elements) ≡ all_on_list history []
perform_all-elements_example = perform_all-elements history no_elements (inl refl, omega arith)
