-- ===== src/Wire/Buffer/Laws.antt =====
-- What is left to read and what has been written, seen as byte sequences.
use spaghettimod.Prelude.{
  ℕ, zero, suc, ◌+◌, ◌≤◌, ◌<◌, ◌≡◌, refl, ap, true, List, [], ◌∷◌, ◌++◌, arith, length, get_or, set,
  take, drop, length-set, length-drop, lt→ltb,
}
use native.Mathlib.Numerals.{add-one}
use native.Mathlib.Nat.{zero-add, suc-add}
use spaghettimod.Wire.Buffer.{DataBuf, maxlen, get, put}

-- The bytes that `get` has not reached.
abbrev pub unread : DataBuf → List ℕ
unread p = drop p.len p.buf

-- The bytes that `put` has written.
abbrev pub written : DataBuf → List ℕ
written p = take p.len p.buf

drop-cons_get :
    (xs : List ℕ) (n x : ℕ) (ys : List ℕ)
    → drop n xs ≡ x ∷ ys
    → (n < length xs) × (get_or xs n 0 ≡ x) × (drop (n + 1) xs ≡ ys)
drop-cons_get [] zero x ys e = absurd (cc)
drop-cons_get [] (suc n) x ys e = absurd (cc)
drop-cons_get (a ∷ xs) zero x ys e = ground arith
drop-cons_get (a ∷ xs) (suc n) x ys e = ground (arith, drop-cons_get xs n x ys e)

-- `get` takes the first unread byte.
pub get-unread :
    (p : DataBuf) (x : ℕ) (ys : List ℕ)
    → unread p ≡ x ∷ ys
    → get p ≡ (x, record p { len = p.len + 1 })
unfolding get
get-unread p x ys e = ground (arith, drop-cons_get p.buf p.len x ys e)

pub unread_next :
    (p : DataBuf) (x : ℕ) (ys : List ℕ)
    → unread p ≡ x ∷ ys
    → unread (record p { len = p.len + 1 }) ≡ ys
unread_next p x ys e = (drop-cons_get p.buf p.len x ys e).2

take-set_next :
    (xs : List ℕ) (n v : ℕ) → n < length xs → take (suc n) (set xs n v) ≡ take n xs ++ (v ∷ [])
take-set_next [] n v h = elim h [ ]
take-set_next (x ∷ xs) zero v h = refl
take-set_next (x ∷ xs) (suc n) v h = ap (λ t. x ∷ t) (take-set_next xs n v (omega arith))

-- `put` adds a byte to what is written while there is room.
pub put-written :
    (p : DataBuf) (v : ℕ)
    → p.len < maxlen p
    → (written (put p v) ≡ written p ++ (v ∷ []))
      × ((put p v).len ≡ p.len + 1)
      × (maxlen (put p v) ≡ maxlen p)
      × ((put p v).overwrote ≡ p.overwrote)
unfolding put
put-written p v h =
    rw (lt→ltb p.len (length p.buf) h)
      (succ (take-set_next p.buf p.len v h), refl, length-set p.buf p.len v, refl)
  where
    succ :
        take (suc p.len) (set p.buf p.len v) ≡ written p ++ (v ∷ [])
        → take (p.len + 1) (set p.buf p.len v) ≡ written p ++ (v ∷ [])
    succ e = rw add-one e

-- The buffer after `k` reads that found a byte.
abbrev pub skip : ℕ → DataBuf → DataBuf
skip zero p = p
skip (suc k) p = skip k (record p { len = p.len + 1 })

pub overread-skip : (k : ℕ) (p : DataBuf) → (skip k p).overread ≡ p.overread
overread-skip zero p = refl
overread-skip (suc k) p = overread-skip k (record p { len = p.len + 1 })

pub unread-skip :
    (xs : List ℕ) (p : DataBuf) (ys : List ℕ)
    → unread p ≡ xs ++ ys
    → unread (skip (length xs) p) ≡ ys
unread-skip [] p ys e = e
unread-skip (x ∷ xs) p ys e =
    unread-skip xs (record p { len = p.len + 1 }) ys (unread_next p x (xs ++ ys) e)

-- `get` past the end gives 0, moves nothing and sets the flag.
pub get_end : (p : DataBuf) → unread p ≡ [] → get p ≡ (0, record p { overread = true })
unfolding get
get_end p e = ground (arith, length-drop p.len p.buf, ap length e)

-- `put` past the end changes nothing but the flag.
pub put_full : (p : DataBuf) (v : ℕ) → maxlen p ≤ p.len → put p v ≡ record p { overwrote = true }
unfolding put
put_full p v h = ground arith

-- Something is left to read.
pub unread-remaining : (p : DataBuf) (x : ℕ) (ys : List ℕ) → unread p ≡ x ∷ ys → p.len < maxlen p
unread-remaining p x ys e = omega (arith, length-drop p.len p.buf, ap length e)

pub skip_add : (a b : ℕ) (p : DataBuf) → skip (a + b) p ≡ skip b (skip a p)
skip_add zero b p = rw zero-add
skip_add (suc a) b p = rw suc-add (skip_add a b (record p { len = p.len + 1 }))
