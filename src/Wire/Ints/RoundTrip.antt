-- ===== src/Wire/Ints/RoundTrip.antt =====
-- Reading back what was sent.
use Prim.Native.Nat.{bit_or}
use spaghettimod.Prelude.{
  ℕ, ◌+◌, ◌-◌, ◌^◌, ◌≤◌, ◌<◌, ◌≡◌, ◌≢◌, ap, ◌∙◌, ◌⊎◌, inl, inr, ◌&&◌, List, [], ◌∷◌, ◌++◌, arith,
  length, Bool-cases,
}
use spaghettimod.Prelude.Int.{pos, negsuc, ltb_ℤ, leb_ℤ}
use spaghettimod.Prelude.Bits.{bit_or_low}
use spaghettimod.Wire.Buffer.{DataBuf, get}
use spaghettimod.Wire.Buffer.Laws.{unread, skip, get-unread, unread_next}
use spaghettimod.Wire.Ints.{signed32, byte_at, sign_extend8, shl32, putint, getint, int_bytes}

-- `get` at each of the first bytes.
module _ (p : DataBuf) where
  get_first : (a : ℕ) (ys : List ℕ) → unread p ≡ a ∷ ys → get p ≡ (a, skip 1 p)
  get_first a ys e = get-unread p a ys e

  unread_first : (a : ℕ) (ys : List ℕ) → unread p ≡ a ∷ ys → unread (skip 1 p) ≡ ys
  unread_first a ys e = unread_next p a ys e

getint_one :
    (p : DataBuf) (a : ℕ) (ys : List ℕ)
    → unread p ≡ a ∷ ys
    → a ≢ 0x80
    → a ≢ 0x81
    → getint p ≡ (sign_extend8 a, skip 1 p)
unfolding getint
getint_one p a ys e h k = rw (get_first p a ys e) (ground arith)

getint_three :
    (p : DataBuf) (b0 b1 : ℕ) (ys : List ℕ)
    → unread p ≡ 0x80 ∷ b0 ∷ b1 ∷ ys
    → getint p ≡ (bit_or b0 (shl32 (sign_extend8 b1) 8), skip 3 p)
unfolding getint
getint_three p b0 b1 ys e =
    let e1 = unread_first p 0x80 (b0 ∷ b1 ∷ ys) e in
    let e2 = unread_first (skip 1 p) b0 (b1 ∷ ys) e1 in
    rw (
      get_first p 0x80 (b0 ∷ b1 ∷ ys) e,
      get_first (skip 1 p) b0 (b1 ∷ ys) e1,
      get_first (skip 2 p) b1 ys e2,
    )

getint_five :
    (p : DataBuf) (b0 b1 b2 b3 : ℕ) (ys : List ℕ)
    → unread p ≡ 0x81 ∷ b0 ∷ b1 ∷ b2 ∷ b3 ∷ ys
    → getint p ≡ (bit_or (bit_or (bit_or b0 (shl32 b1 8)) (shl32 b2 16)) (shl32 b3 24), skip 5 p)
unfolding getint
getint_five p b0 b1 b2 b3 ys e =
    let e1 = unread_first p 0x81 (b0 ∷ b1 ∷ b2 ∷ b3 ∷ ys) e in
    let e2 = unread_first (skip 1 p) b0 (b1 ∷ b2 ∷ b3 ∷ ys) e1 in
    let e3 = unread_first (skip 2 p) b1 (b2 ∷ b3 ∷ ys) e2 in
    let e4 = unread_first (skip 3 p) b2 (b3 ∷ ys) e3 in
    rw (
      get_first p 0x81 (b0 ∷ b1 ∷ b2 ∷ b3 ∷ ys) e,
      get_first (skip 1 p) b0 (b1 ∷ b2 ∷ b3 ∷ ys) e1,
      get_first (skip 2 p) b1 (b2 ∷ b3 ∷ ys) e2,
      get_first (skip 3 p) b2 (b3 ∷ ys) e3,
      get_first (skip 4 p) b3 ys e4,
    )

join_three :
    (n : ℕ)
    → n < 2 ^ 32
    → (n < 0x8000) ⊎ (2 ^ 32 - 0x8000 ≤ n)
    → bit_or (byte_at n 0) (shl32 (sign_extend8 (byte_at n 8)) 8) ≡ n
join_three n h r =
    let high = shl32 (sign_extend8 (byte_at n 8)) 8 in
    bit_or_low 8 (byte_at n 0) high (omega arith) (omega arith) ∙ ground arith

join_five :
    (n : ℕ)
    → n < 2 ^ 32
    → bit_or
        (bit_or (bit_or (byte_at n 0) (shl32 (byte_at n 8) 8)) (shl32 (byte_at n 16) 16))
        (shl32 (byte_at n 24) 24)
      ≡ n
join_five n h =
    rw
      (
        bit_or_low 8 (byte_at n 0) (shl32 (byte_at n 8) 8) (omega arith) (omega arith),
        bit_or_low 16 (shl32 (byte_at n 8) 8 + byte_at n 0) (shl32 (byte_at n 16) 16) (omega arith)
            (omega arith),
        bit_or_low 24 (shl32 (byte_at n 16) 16 + (shl32 (byte_at n 8) 8 + byte_at n 0))
            (shl32 (byte_at n 24) 24) (omega arith) (omega arith),
      )
      (omega arith)

-- How `putint` chooses the number of bytes.
data Size (n : ℕ) : Type 0 where
  one : (n < 128) ⊎ (2 ^ 32 - 127 < n) → int_bytes n ≡ byte_at n 0 ∷ [] → Size n
  three :
      (n < 0x8000) ⊎ (2 ^ 32 - 0x8000 ≤ n)
      → int_bytes n ≡ 0x80 ∷ byte_at n 0 ∷ byte_at n 8 ∷ []
      → Size n
  five : int_bytes n ≡ 0x81 ∷ byte_at n 0 ∷ byte_at n 8 ∷ byte_at n 16 ∷ byte_at n 24 ∷ [] → Size n

Size-total : (n : ℕ) → n < 2 ^ 32 → Size n
unfolding putint
Size-total n h =
    elim (Bool-cases (ltb_ℤ (signed32 n) (pos 128) && ltb_ℤ (negsuc 126) (signed32 n))) [
      | inl e ↦ one (ground arith) (rw e)
      | inr e ↦
          elim (Bool-cases
            (ltb_ℤ (signed32 n) (pos 0x8000) && leb_ℤ (negsuc 0x7fff) (signed32 n))) [
              | inl e' ↦ three (ground arith) (rw (e, e'))
              | inr e' ↦ five (rw (e, e'))
            ]
    ]

-- An `int` that `putint` wrote is what `getint` returns, whatever follows it; exactly the bytes
-- of the encoding are read, and no flag is set.
pub getint-putint :
    (p : DataBuf) (n : ℕ) (rest : List ℕ)
    → n < 2 ^ 32
    → unread p ≡ int_bytes n ++ rest
    → getint p ≡ (n, skip (length (int_bytes n)) p)
getint-putint p n rest h e = go (Size-total n h)
  where
    go : Size n → getint p ≡ (n, skip (length (int_bytes n)) p)
    go (one r s) =
        let e' : unread p ≡ byte_at n 0 ∷ rest = rw s at e in
        rw s (
          getint_one p (byte_at n 0) rest e' (ground arith) (ground arith)
          ∙ ap (λ v. (v, skip 1 p)) (ground arith))
    go (three r s) =
        let e' : unread p ≡ 0x80 ∷ byte_at n 0 ∷ byte_at n 8 ∷ rest = rw s at e in
        rw s (
          getint_three p (byte_at n 0) (byte_at n 8) rest e'
          ∙ ap (λ v. (v, skip 3 p)) (join_three n h r))
    go (five s) =
        let e' : unread p ≡ 0x81 ∷ byte_at n 0 ∷ byte_at n 8 ∷ byte_at n 16 ∷ byte_at n 24 ∷ rest =
          rw s at e in
        rw s (
          getint_five p (byte_at n 0) (byte_at n 8) (byte_at n 16) (byte_at n 24) rest e'
          ∙ ap (λ v. (v, skip 5 p)) (join_five n h))
