-- ===== src/Wire/Ints.antt =====
-- `putint_`, `getint`, `putuint_` and `getuint` of shared/tools.cpp. An `int` is its 32-bit pattern,
-- a number below 2^32; `signed32` is the integer that the pattern stands for.
-- The writers are templates over the buffer: they take its `put` as an argument.
pub mod RoundTrip
pub mod Writing
pub mod Unsigned
use Prim.Native.Nat.{bit_and, bit_or}
use spaghettimod.Prelude.{
  ℕ, ◌+◌, ◌-◌, ◌*◌, ◌/◌, ◌%◌, ◌^◌, Bool, ◌&&◌, ◌||◌, List, [], ◌∷◌, ◌++◌, ltb, ◌==◌, if◌then◌else◌,
}
use mathlib.Core.Bool.{not}
use spaghettimod.Prelude.Int.{ℤ, pos, negsuc, ltb_ℤ, leb_ℤ}
use spaghettimod.Wire.Buffer.{DataBuf, get}

abbrev pub signed32 : ℕ → ℤ
signed32 w = if ltb w (2 ^ 31) then pos w else negsuc (2 ^ 32 - w - 1)

-- The low byte of `n >> k`: `p.put` takes a `uchar`.
abbrev pub byte_at : ℕ → ℕ → ℕ
byte_at n k = n / 2 ^ k % 256

-- `(schar)b` as a 32-bit pattern.
abbrev pub sign_extend8 : ℕ → ℕ
sign_extend8 b = if ltb b 128 then b else b + 2 ^ 32 - 256

-- `x << k` on a 32-bit pattern.
abbrev pub shl32 : ℕ → ℕ → ℕ
shl32 x k = x * 2 ^ k % 2 ^ 32

unfoldable pub putint {ℓ} : {P : Type ℓ} → (P → ℕ → P) → P → ℕ → P
putint put p n =
    if ltb_ℤ (signed32 n) (pos 128) && ltb_ℤ (negsuc 126) (signed32 n)
    then put p (byte_at n 0)
    else if ltb_ℤ (signed32 n) (pos 0x8000) && leb_ℤ (negsuc 0x7fff) (signed32 n)
    then put (put (put p 0x80) (byte_at n 0)) (byte_at n 8)
    else put (put (put (put (put p 0x81) (byte_at n 0)) (byte_at n 8)) (byte_at n 16))
        (byte_at n 24)

unfoldable pub getint : DataBuf → ℕ × DataBuf
getint p =
    let (c, p1) = get p in
    if c == 0x80
    then (let (b0, p2) = get p1 in
        let (b1, p3) = get p2 in (bit_or b0 (shl32 (sign_extend8 b1) 8), p3))
    else if c == 0x81
    then (let (b0, p2) = get p1 in
        let (b1, p3) = get p2 in
        let (b2, p4) = get p3 in
        let (b3, p5) = get p4 in
        (bit_or (bit_or (bit_or b0 (shl32 b1 8)) (shl32 b2 16)) (shl32 b3 24), p5))
    else (sign_extend8 c, p1)

-- `0x80 | ((n >> k) & 0x7F)`
abbrev pub group_at : ℕ → ℕ → ℕ
group_at n k = bit_or 0x80 (bit_and (n / 2 ^ k) 0x7f)

-- `n >> 21` of a negative `n` shifts ones in, above the byte that is put.
unfoldable pub putuint {ℓ} : {P : Type ℓ} → (P → ℕ → P) → P → ℕ → P
putuint put p n =
    if ltb_ℤ (signed32 n) (pos 0) || leb_ℤ (pos (2 ^ 21)) (signed32 n)
    then put (put (put (put p (group_at n 0)) (group_at n 7)) (group_at n 14)) (byte_at n 21)
    else if ltb_ℤ (signed32 n) (pos (2 ^ 7))
    then put p (byte_at n 0)
    else if ltb_ℤ (signed32 n) (pos (2 ^ 14))
    then put (put p (group_at n 0)) (byte_at n 7)
    else put (put (put p (group_at n 0)) (group_at n 7)) (byte_at n 14)

-- `n += (p.get() << k) - (1 << k)`, on 32-bit patterns.
abbrev pub add_group : ℕ → ℕ → ℕ → ℕ
add_group n b k = (n + (shl32 b k + 2 ^ 32 - 2 ^ k)) % 2 ^ 32

abbrev pub has_bit : ℕ → ℕ → Bool
has_bit n k = not (bit_and n (2 ^ k) == 0)

unfoldable pub getuint : DataBuf → ℕ × DataBuf
getuint p =
    let (n, p1) = get p in
    if has_bit n 7
    then (let (b1, p2) = get p1 in
        let n1 = add_group n b1 7 in
        if has_bit n1 14
        then (let (b2, p3) = get p2 in
            let n2 = add_group n1 b2 14 in
            if has_bit n2 21
            then (let (b3, p4) = get p3 in
                let n3 = add_group n2 b3 21 in
                (if has_bit n3 28 then bit_or n3 (shl32 (2 ^ 32 - 1) 28) else n3, p4))
            else (n2, p3))
        else (n1, p2))
    else (n, p1)

-- `vector<uchar>::put`.
abbrev pub append_byte : List ℕ → ℕ → List ℕ
append_byte v b = v ++ (b ∷ [])

-- The bytes that a number is sent as.
abbrev pub int_bytes : ℕ → List ℕ
int_bytes n = putint append_byte [] n
