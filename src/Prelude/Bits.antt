-- ===== src/Prelude/Bits.antt =====
-- The bit operations at variables, where the bits of the operands lie in separate fields.
use Prim.Native.Nat.{
  ℕ, zero, suc, ◌+◌, ◌*◌, ◌/◌, ◌%◌, ◌^◌, ◌-◌, ◌<◌, ◌≤◌, min, max, bit_and, bit_or, digits,
  bit_and-bitwise, bit_or-bitwise,
}
use mathlib.Core.Path.{◌≡◌, refl, ap, sym, ◌∙◌}
use mathlib.Core.Bool.{Bool, true, ◌&&◌, not}
use native.Mathlib.Omega.{arith}
use native.Mathlib.Decide.{dec_lt}
use spaghettimod.Prelude.Tests.{◌==◌, ==_iff}
use native.Mathlib.Nat.{pow-suc, one-le-pow, div-div-eq-div-mul, div-add-mod, mod-lt}

-- The native operations stand for a digit recursion whose fuel is its first number.
module _ (past : ℕ → ℕ) (digit : ℕ → ℕ → ℕ) where
  -- Fuel beyond the number changes nothing.
  spare_fuel :
      (bound fuel a b : ℕ)
      → a ≤ bound
      → a ≤ fuel
      → digits past digit fuel a b ≡ digits past digit a a b
  spare_fuel bound zero zero b h k = refl
  spare_fuel bound zero (suc a) b h k = elim k [ ]
  spare_fuel bound (suc fuel) zero b h k = refl
  spare_fuel zero (suc fuel) (suc a) b h k = elim h [ ]
  spare_fuel (suc bound) (suc fuel) (suc a) b h k =
      let half = suc a / 2 in
      ap (λ t. t * 2 + digit (suc a % 2) (b % 2))
        (spare_fuel bound fuel half (b / 2) (omega arith) (omega arith)
          ∙ sym (spare_fuel bound a half (b / 2) (omega arith) (omega arith)))

  -- The lowest digit and the rest.
  last_digit :
      (a b : ℕ)
      → digits past digit (suc a) (suc a) b
        ≡ digits past digit (suc a / 2) (suc a / 2) (b / 2) * 2 + digit (suc a % 2) (b % 2)
  last_digit a b =
      ap (λ t. t * 2 + digit (suc a % 2) (b % 2))
        (spare_fuel a a (suc a / 2) (b / 2) (omega arith) (omega arith))

or_halves : (a b : ℕ) → bit_or a b ≡ bit_or (a / 2) (b / 2) * 2 + max (a % 2) (b % 2)
or_halves zero b = omega (arith, bit_or-bitwise 0 b, bit_or-bitwise 0 (b / 2))
or_halves (suc a) b =
    bit_or-bitwise (suc a) b
    ∙ last_digit (λ rest. rest) max a b
    ∙ ap (λ t. t * 2 + max (suc a % 2) (b % 2)) (sym (bit_or-bitwise (suc a / 2) (b / 2)))

and_halves : (a b : ℕ) → bit_and a b ≡ bit_and (a / 2) (b / 2) * 2 + min (a % 2) (b % 2)
and_halves zero b = omega (arith, bit_and-bitwise 0 b, bit_and-bitwise 0 (b / 2))
and_halves (suc a) b =
    bit_and-bitwise (suc a) b
    ∙ last_digit (λ rest. zero) min a b
    ∙ ap (λ t. t * 2 + min (suc a % 2) (b % 2)) (sym (bit_and-bitwise (suc a / 2) (b / 2)))

-- Both operations with 0 on the right.
with_zero : (bound a : ℕ) → a ≤ bound → (bit_or a 0 ≡ a) × (bit_and a 0 ≡ 0)
with_zero bound zero h = (refl, refl)
with_zero zero (suc a) h = elim h [ ]
with_zero (suc bound) (suc a) h =
    let (ored, anded) = with_zero bound (suc a / 2) (omega arith) in
    (omega (arith, or_halves (suc a) 0, ored), omega (arith, and_halves (suc a) 0, anded))

or_zero : (a : ℕ) → bit_or a 0 ≡ a
or_zero a = (with_zero a a (omega arith)).0

and_zero : (a : ℕ) → bit_and a 0 ≡ 0
and_zero a = (with_zero a a (omega arith)).1

mul-pow-suc : (q k : ℕ) → q * 2 ^ suc k ≡ q * 2 ^ k * 2
mul-pow-suc q k = omega (arith, ap (λ (t : ℕ). q * t) (pow-suc 2 k))

-- `a | b` where `b` is a multiple of 2^k: the low field of `a` stays, the high fields are joined.
pub bit_or_fields :
    (k q p r : ℕ) → r < 2 ^ k → bit_or (q * 2 ^ k + r) (p * 2 ^ k) ≡ bit_or q p * 2 ^ k + r
bit_or_fields zero q p r h =
    let q0 : q * 1 + r ≡ q = omega arith in
    let p0 : p * 1 ≡ p = omega arith in rw (q0, p0) (omega arith)
bit_or_fields (suc k) q p r h =
    let hq : (q * 2 ^ suc k + r) / 2 ≡ q * 2 ^ k + r / 2 = omega (arith, mul-pow-suc q k) in
    let hp : p * 2 ^ suc k / 2 ≡ p * 2 ^ k = omega (arith, mul-pow-suc p k) in
    let step =
      ◌≡◌ {A = ℕ} (bit_or ((q * 2 ^ suc k + r) / 2) (p * 2 ^ suc k / 2))
        (bit_or q p * 2 ^ k + r / 2) in
    let ih : step = rw (hq, hp) (bit_or_fields k q p (r / 2) (omega (arith, pow-suc 2 k))) in
    omega (
      arith,
      or_halves (q * 2 ^ suc k + r) (p * 2 ^ suc k),
      mul-pow-suc q k,
      mul-pow-suc p k,
      mul-pow-suc (bit_or q p) k,
      ih,
    )

-- `x | z` where `x` fits below the field that `z` fills.
pub bit_or_low : (k x z : ℕ) → x < 2 ^ k → z % 2 ^ k ≡ 0 → bit_or x z ≡ z + x
bit_or_low k x z h e =
    let low : 0 * 2 ^ k + x ≡ x = omega arith in
    let high : z / 2 ^ k * 2 ^ k ≡ z = omega (arith, div-add-mod z (2 ^ k)) in
    let fields : bit_or (0 * 2 ^ k + x) (z / 2 ^ k * 2 ^ k) ≡ bit_or 0 (z / 2 ^ k) * 2 ^ k + x =
      bit_or_fields k 0 (z / 2 ^ k) x h in
    rw (low, high, bit_or-bitwise 0 (z / 2 ^ k), high) at fields

-- `a & (2^k - 1)` keeps the low field.
bit_and_low : (k q r : ℕ) → r < 2 ^ k → bit_and (q * 2 ^ k + r) (2 ^ k - 1) ≡ r
bit_and_low zero q r h = omega (arith, and_zero (q * 1 + r))
bit_and_low (suc k) q r h =
    let hq : (q * 2 ^ suc k + r) / 2 ≡ q * 2 ^ k + r / 2 = omega (arith, mul-pow-suc q k) in
    let hm : (2 ^ suc k - 1) / 2 ≡ 2 ^ k - 1 = omega (arith, pow-suc 2 k, one-le-pow k 2) in
    let ih : bit_and ((q * 2 ^ suc k + r) / 2) ((2 ^ suc k - 1) / 2) ≡ r / 2 =
      rw (hq, hm) (bit_and_low k q (r / 2) (omega (arith, pow-suc 2 k))) in
    omega (
      arith,
      and_halves (q * 2 ^ suc k + r) (2 ^ suc k - 1),
      mul-pow-suc q k,
      pow-suc 2 k,
      one-le-pow k 2,
      ih,
    )

pub bit_and_mask : (k a : ℕ) → bit_and a (2 ^ k - 1) ≡ a % 2 ^ k
bit_and_mask k a =
    let split : a / 2 ^ k * 2 ^ k + a % 2 ^ k ≡ a = omega (arith, div-add-mod a (2 ^ k)) in
    let low : a % 2 ^ k < 2 ^ k = mod-lt a (one-le-pow k 2 (omega arith)) in
    ap (λ t. bit_and t (2 ^ k - 1)) (sym split) ∙ bit_and_low k (a / 2 ^ k) (a % 2 ^ k) low

-- `a & (1 << k)`.
pub bit_and_bit : (k a : ℕ) → bit_and a (2 ^ k) ≡ a / 2 ^ k % 2 * 2 ^ k
bit_and_bit zero a = omega (arith, and_halves a 1, and_zero (a / 2))
bit_and_bit (suc k) a =
    let half : 2 ^ suc k / 2 ≡ 2 ^ k = omega (arith, pow-suc 2 k) in
    let shift : a / 2 / 2 ^ k ≡ a / 2 ^ suc k =
      div-div-eq-div-mul a 2 (2 ^ k) ∙ ap (λ t. a / t) (omega (arith, pow-suc 2 k)) in
    let ih : bit_and (a / 2) (2 ^ suc k / 2) ≡ a / 2 ^ suc k % 2 * 2 ^ k =
      rw (half, ← shift) (bit_and_bit k (a / 2)) in
    omega (arith, and_halves a (2 ^ suc k), pow-suc 2 k, mul-pow-suc (a / 2 ^ suc k % 2) k, ih)

-- A claim about every number below `n`, checked by evaluation.
unfoldable pub every_below : ℕ → (ℕ → Bool) → Bool
every_below zero holds = true
every_below (suc n) holds = every_below n holds && holds n

pub every_below→ :
    (n : ℕ) (holds : ℕ → Bool) (x : ℕ) → every_below n holds ≡ true → x < n → holds x ≡ true
unfolding every_below
every_below→ zero holds x h lt = elim lt [ ]
every_below→ (suc n) holds x h lt = ground (arith, every_below→ n holds x)

or_top_table : every_below 128 (λ x. bit_or 0x80 x == x + 128) ≡ true
unfolding every_below
or_top_table = refl

-- `0x80 | x` for seven bits `x`.
pub bit_or_top : (x : ℕ) → x < 128 → bit_or 0x80 x ≡ x + 128
bit_or_top x h = (==_iff _ _).0 (every_below→ 128 _ x or_top_table h)

-- `!!(n & (1 << k))`
pub test_bit : (k n : ℕ) → not (bit_and n (2 ^ k) == 0) ≡ (n / 2 ^ k % 2 == 1)
test_bit k n = elim (dec_lt 0 (n / 2 ^ k % 2)) [
  | yes one ↦
      let bit : n / 2 ^ k % 2 ≡ 1 = omega arith in
      let value : bit_and n (2 ^ k) ≡ 1 * 2 ^ k = rw (← bit) (bit_and_bit k n) in
      ground (arith, bit, value, one-le-pow k 2)
  | no none ↦
      let bit : n / 2 ^ k % 2 ≡ 0 = omega arith in
      let value : bit_and n (2 ^ k) ≡ 0 * 2 ^ k = rw (← bit) (bit_and_bit k n) in
      ground (arith, bit, value)
]
