-- ===== src/Wire/Ints/Unsigned.antt =====
-- Reading back what `putuint` sent.
use spaghettimod.Prelude.{
  ℕ, ◌+◌, ◌/◌, ◌%◌, ◌*◌, ◌^◌, ◌≤◌, ◌<◌, ◌≡◌, ap, ◌∙◌, if◌then◌else◌, ◌⊎◌, inl, inr, List, [], ◌∷◌,
  ◌++◌, arith, length, ◌==◌, Bool-cases, ◌||◌,
}
use Prim.Native.Nat.{bit_or}
use spaghettimod.Prelude.Int.{pos, ltb_ℤ, leb_ℤ}
use spaghettimod.Prelude.Bits.{bit_and_mask, test_bit, bit_or_top, bit_or_fields}
use spaghettimod.Wire.Buffer.{DataBuf}
use spaghettimod.Wire.Buffer.Laws.{unread, skip, get-unread, unread_next}
use spaghettimod.Wire.Ints.{signed32, byte_at, putuint, getuint, group_at, add_group, append_byte}

abbrev pub uint_bytes : ℕ → List ℕ
uint_bytes n = putuint append_byte [] n

group_at_lem : (n k : ℕ) → group_at n k ≡ n / 2 ^ k % 128 + 128
group_at_lem n k = rw (bit_and_mask 7 (n / 2 ^ k)) (bit_or_top (n / 2 ^ k % 128) (omega arith))

module _ (p : DataBuf) (b0 : ℕ) where
  read_one : (ys : List ℕ) → unread p ≡ b0 ∷ ys → b0 / 2 ^ 7 % 2 ≡ 0 → getuint p ≡ (b0, skip 1 p)
  unfolding getuint
  read_one ys e s0 = rw (get-unread p b0 ys e, test_bit 7 b0, s0)

  read_two :
      (b1 : ℕ) (ys : List ℕ)
      → unread p ≡ b0 ∷ b1 ∷ ys
      → b0 / 2 ^ 7 % 2 ≡ 1
      → add_group b0 b1 7 / 2 ^ 14 % 2 ≡ 0
      → getuint p ≡ (add_group b0 b1 7, skip 2 p)
  unfolding getuint
  read_two b1 ys e s0 s1 =
      let e1 = unread_next p b0 (b1 ∷ ys) e in
      rw (get-unread p b0 (b1 ∷ ys) e, test_bit 7 b0, s0, get-unread (skip 1 p) b1 ys e1)
        (rw (test_bit 14 (add_group b0 b1 7), s1))

  read_three :
      (b1 b2 : ℕ) (ys : List ℕ)
      → unread p ≡ b0 ∷ b1 ∷ b2 ∷ ys
      → b0 / 2 ^ 7 % 2 ≡ 1
      → add_group b0 b1 7 / 2 ^ 14 % 2 ≡ 1
      → add_group (add_group b0 b1 7) b2 14 / 2 ^ 21 % 2 ≡ 0
      → getuint p ≡ (add_group (add_group b0 b1 7) b2 14, skip 3 p)
  unfolding getuint
  read_three b1 b2 ys e s0 s1 s2 =
      let e1 = unread_next p b0 (b1 ∷ b2 ∷ ys) e in
      let e2 = unread_next (skip 1 p) b1 (b2 ∷ ys) e1 in
      rw
        (get-unread p b0 (b1 ∷ b2 ∷ ys) e, test_bit 7 b0, s0, get-unread (skip 1 p) b1 (b2 ∷ ys) e1)
        (rw (test_bit 14 (add_group b0 b1 7), s1, get-unread (skip 2 p) b2 ys e2)
          (rw (test_bit 21 (add_group (add_group b0 b1 7) b2 14), s2)))

  -- Four groups: the fourth brings bits 21 to 28, and bit 28 is the sign.
  read_four :
      (b1 b2 b3 : ℕ) (ys : List ℕ)
      → unread p ≡ b0 ∷ b1 ∷ b2 ∷ b3 ∷ ys
      → b0 / 2 ^ 7 % 2 ≡ 1
      → add_group b0 b1 7 / 2 ^ 14 % 2 ≡ 1
      → add_group (add_group b0 b1 7) b2 14 / 2 ^ 21 % 2 ≡ 1
      → getuint p ≡ (
        (let n = add_group (add_group (add_group b0 b1 7) b2 14) b3 21 in
            if n / 2 ^ 28 % 2 == 1 then bit_or n (15 * 2 ^ 28) else n),
        skip 4 p,
      )
  unfolding getuint
  read_four b1 b2 b3 ys e s0 s1 s2 =
      let e1 = unread_next p b0 (b1 ∷ b2 ∷ b3 ∷ ys) e in
      let e2 = unread_next (skip 1 p) b1 (b2 ∷ b3 ∷ ys) e1 in
      let e3 = unread_next (skip 2 p) b2 (b3 ∷ ys) e2 in
      rw
        (
          get-unread p b0 (b1 ∷ b2 ∷ b3 ∷ ys) e,
          test_bit 7 b0,
          s0,
          get-unread (skip 1 p) b1 (b2 ∷ b3 ∷ ys) e1,
        )
        (rw (test_bit 14 (add_group b0 b1 7), s1, get-unread (skip 2 p) b2 (b3 ∷ ys) e2)
          (rw (
            test_bit 21 (add_group (add_group b0 b1 7) b2 14),
            s2,
            get-unread (skip 3 p) b3 ys e3,
            test_bit 28 (add_group (add_group (add_group b0 b1 7) b2 14) b3 21),
          )))

-- How `putuint` chooses the number of groups, with each group's value.
abbrev group : ℕ → ℕ → ℕ
group n k = n / 2 ^ k % 128 + 128

data Size (n : ℕ) : Type 0 where
  one : n < 2 ^ 7 → uint_bytes n ≡ byte_at n 0 ∷ [] → Size n
  two : 2 ^ 7 ≤ n → n < 2 ^ 14 → uint_bytes n ≡ group n 0 ∷ byte_at n 7 ∷ [] → Size n
  three :
      2 ^ 14 ≤ n → n < 2 ^ 21 → uint_bytes n ≡ group n 0 ∷ group n 7 ∷ byte_at n 14 ∷ [] → Size n
  four : 2 ^ 21 ≤ n → uint_bytes n ≡ group n 0 ∷ group n 7 ∷ group n 14 ∷ byte_at n 21 ∷ [] → Size n

Size-total : (n : ℕ) → n < 2 ^ 32 → Size n
unfolding putuint
Size-total n h =
    elim (Bool-cases (ltb_ℤ (signed32 n) (pos 0) || leb_ℤ (pos (2 ^ 21)) (signed32 n))) [
      | inl e ↦ four (ground arith) (rw (e, group_at_lem n 0, group_at_lem n 7, group_at_lem n 14))
      | inr e ↦ elim (Bool-cases (ltb_ℤ (signed32 n) (pos (2 ^ 7)))) [
        | inl e' ↦ one (ground arith) (rw (e, e'))
        | inr e' ↦ elim (Bool-cases (ltb_ℤ (signed32 n) (pos (2 ^ 14)))) [
          | inl e'' ↦ two (ground arith) (ground arith) (rw (e, e', e'', group_at_lem n 0))
          | inr e'' ↦
              three (ground arith) (ground arith)
                (rw (e, e', e'', group_at_lem n 0, group_at_lem n 7))
        ]
      ]
    ]

-- The value that the four groups give: `n` itself, sign included.
join_four :
    (n : ℕ)
    → (n < 2 ^ 28) ⊎ ((15 * 2 ^ 28 ≤ n) × (n < 2 ^ 32))
    → let m = n % 2 ^ 29 in (if m / 2 ^ 28 % 2 == 1 then bit_or m (15 * 2 ^ 28) else m) ≡ n
join_four n (inl h) = ground arith
join_four n (inr h) =
    let top : bit_or (1 * 2 ^ 28 + n % 2 ^ 28) (15 * 2 ^ 28) ≡ 15 * 2 ^ 28 + n % 2 ^ 28 =
      bit_or_fields 28 1 15 (n % 2 ^ 28) (omega arith) in
    let low : n % 2 ^ 29 ≡ 1 * 2 ^ 28 + n % 2 ^ 28 = omega arith in rw low (ground (arith, top))

-- A number of at most 28 bits and a sign (-2^28 up to 2^28 - 1, as a 32-bit pattern) that `putuint`
-- wrote is what `getuint` returns, whatever follows it; exactly the bytes of the encoding are read.
pub getuint-putuint :
    (p : DataBuf) (n : ℕ) (rest : List ℕ)
    → (n < 2 ^ 28) ⊎ ((15 * 2 ^ 28 ≤ n) × (n < 2 ^ 32))
    → unread p ≡ uint_bytes n ++ rest
    → getuint p ≡ (n, skip (length (uint_bytes n)) p)
getuint-putuint p n rest h e = go (Size-total n (omega arith))
  where
    go : Size n → getuint p ≡ (n, skip (length (uint_bytes n)) p)
    go (one u s) =
        let e' : unread p ≡ byte_at n 0 ∷ rest = rw s at e in
        rw s
          (read_one p (byte_at n 0) rest e' (omega arith) ∙ ap (λ v. (v, skip 1 p)) (omega arith))
    go (two l u s) =
        let e' : unread p ≡ group n 0 ∷ byte_at n 7 ∷ rest = rw s at e in
        rw s (
          read_two p (group n 0) (byte_at n 7) rest e' (omega arith) (omega arith)
          ∙ ap (λ v. (v, skip 2 p)) (omega arith))
    go (three l u s) =
        let e' : unread p ≡ group n 0 ∷ group n 7 ∷ byte_at n 14 ∷ rest = rw s at e in
        rw s (
          read_three p (group n 0) (group n 7) (byte_at n 14) rest e' (omega arith) (omega arith)
            (omega arith)
          ∙ ap (λ v. (v, skip 3 p)) (omega arith))
    go (four l s) =
        let e' : unread p ≡ group n 0 ∷ group n 7 ∷ group n 14 ∷ byte_at n 21 ∷ rest = rw s at e in
        let low : add_group (add_group (add_group (group n 0) (group n 7) 7) (group n 14) 14)
              (byte_at n 21) 21
            ≡ n % 2 ^ 29 =
          omega arith in
        rw s (
          read_four p (group n 0) (group n 7) (group n 14) (byte_at n 21) rest e' (omega arith)
            (omega arith) (omega arith)
          ∙ ap (λ v. (v, skip 4 p)) (rw low (join_four n h)))
