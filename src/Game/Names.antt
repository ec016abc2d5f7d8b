-- ===== src/Game/Names.antt =====
-- Team and player names: C strings as lists of bytes without the NUL.
use Prim.Native.Char.{code}
use Prim.Native.String.{String}
use spaghettimod.Prelude.{
  ℕ, ◌-◌, ◌≡◌, refl, ◌↔◌, Bool, true, false, ◌&&◌, List, [], ◌∷◌, arith, take, ◌==◌,
}

abbrev pub Name : Type 0
Name = List ℕ

-- The bytes of an ASCII text.
abbrev pub name_of : String → Name
name_of String.[] = []
name_of (String.◌∷◌ c s) = code c ∷ name_of s

-- `!strcmp(a, b)`
unfoldable pub same_name : Name → Name → Bool
same_name [] [] = true
same_name [] (y ∷ ys) = false
same_name (x ∷ xs) [] = false
same_name (x ∷ xs) (y ∷ ys) = x == y && same_name xs ys

pub same_name_iff : (a b : Name) → (same_name a b ≡ true) ↔ (a ≡ b)
unfolding same_name
same_name_iff [] [] = (λ _. refl, λ _. refl)
same_name_iff [] (y ∷ ys) = (λ e. cc, λ e. cc)
same_name_iff (x ∷ xs) [] = (λ e. cc, λ e. cc)
same_name_iff (x ∷ xs) (y ∷ ys) = ground (arith, same_name_iff xs ys)

pub same_name_refl : (a : Name) → same_name a a ≡ true
same_name_refl a = (same_name_iff a a).1 refl

-- `a[0]`
abbrev pub nonempty : Name → Bool
nonempty [] = false
nonempty (x ∷ xs) = true

-- `copystring(d, s)` for an array of `len` bytes.
unfoldable pub copystring : ℕ → Name → Name
copystring len s = take (len - 1) s

-- MAXSTRLEN
abbrev pub max_str_len : ℕ
max_str_len = 260
