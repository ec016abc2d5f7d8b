-- ===== src/Vectors.antt =====
-- How `vector` of shared/tools.h keeps its elements and its capacity. A result `none` is a write past
-- the capacity, a failed assertion, or fuel that runs out. The memory beyond the last element is not
-- kept; memory never runs out, and a capacity stays far below 2^31.
pub mod Growth
mod Tests
use spaghettimod.Prelude.{
  ℕ, zero, suc, ◌+◌, ◌/◌, ◌==◌, List, [], ◌∷◌, ◌++◌, Option, none, some, ◌>>=◌, if◌then◌else◌, ltb,
  leb, length, take,
}

-- The array is `elems`, of which `ulen` is the length.
pub record Vector (A : Type 0) : Type 0 where
  pub alen : ℕ
  pub elems : List A

abbrev pub min_size : ℕ
min_size = 8

-- `while(alen < sz) alen += alen/2;`
unfoldable pub grow : ℕ → ℕ → ℕ → Option ℕ
grow zero sz alen = none
grow (suc fuel) sz alen =
    let rest = grow fuel sz (alen + alen / 2) in if ltb alen sz then rest else some alen

unfoldable pub new_capacity : ℕ → ℕ → Option ℕ
new_capacity sz alen =
    if alen == 0 then some (if ltb min_size sz then sz else min_size) else grow (suc sz) sz alen

module _ {A : Type 0} where
  -- The elements are copied to the new array, which has room for no more than its capacity.
  unfoldable pub growbuf : ℕ → Vector A → Option (Vector A)
  growbuf sz v = do
    n ← new_capacity sz v.alen
    if leb (length v.elems) n then some (record v { alen = n }) else none

  -- `new (&buf[ulen]) T(x); ulen++`, where the place is within the capacity.
  unfoldable pub append : A → Vector A → Option (Vector A)
  append x v =
      if ltb (length v.elems) v.alen then some (record v { elems = v.elems ++ (x ∷ []) }) else none

  unfoldable pub add : A → Vector A → Option (Vector A)
  add x v = do
    w ← if length v.elems == v.alen then growbuf (length v.elems + 1) v else some v
    append x w

  -- An array that is shrunk to more than it has is not defined.
  unfoldable pub shrink : ℕ → Vector A → Option (Vector A)
  shrink i v = if leb i (length v.elems) then some (record v { elems = take i v.elems }) else none

  unfoldable pub add_all : List A → Vector A → Option (Vector A)
  add_all [] v = some v
  add_all (x ∷ xs) v = do w ← add x v; add_all xs w

  -- `operator=`
  unfoldable pub assign : List A → Vector A → Option (Vector A)
  assign xs v = do
    emptied ← shrink 0 v
    grown ← if ltb v.alen (length xs) then growbuf (length xs) emptied else some emptied
    add_all xs grown

-- What a client does with a vector.
pub data Op (A : Type 0) : Type 0 where
  added : A → Op A
  shrunk : ℕ → Op A
  assigned : List A → Op A

module _ {A : Type 0} where
  unfoldable pub perform : Op A → Vector A → Option (Vector A)
  perform (added x) = add x
  perform (shrunk i) = shrink i
  perform (assigned xs) = assign xs

  unfoldable pub perform_all : List (Op A) → Vector A → Option (Vector A)
  perform_all [] v = some v
  perform_all (op ∷ ops) v = do w ← perform op v; perform_all ops w
