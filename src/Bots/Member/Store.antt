-- ===== src/Bots/Member/Store.antt =====
-- What a change through a pointer leaves, and the lists of pointers.
use mathlib.Core.Bool.{not}
use spaghettimod.Prelude.{
  ℕ, zero, suc, ◌≤◌, ◌<◌, length, get_elem?, ◌≡◌, refl, Bool, true, false, ◌&&◌, ◌||◌, List, [],
  ◌∷◌, ◌++◌, Option, none, some, arith,
}
use spaghettimod.Prelude.Int.{ℤ, eqb_ℤ, eqb_ℤ_iff}
use spaghettimod.Bots.Member.{Member, find, change, has, removeobj}

-- A change that keeps the number of the client.
abbrev pub KeepsNumber : (Member → Member) → Type 0
KeepsNumber f = (c : Member) → (f c).clientnum ≡ c.clientnum

abbrev pub onto : Bool → (Member → Member) → Option Member → Option Member
onto false f o = o
onto true f none = none
onto true f (some c) = some (f c)

pub eqb_refl : (n : ℤ) → eqb_ℤ n n ≡ true
eqb_refl n = (eqb_ℤ_iff n n).1 refl

pub eqb_sym : (m n : ℤ) → eqb_ℤ m n ≡ eqb_ℤ n m
eqb_sym m n = ground arith

pub find-change :
    (cs : List Member) (m : ℤ) (f : Member → Member) (n : ℤ)
    → KeepsNumber f
    → find (change cs m f) n ≡ onto (eqb_ℤ n m) f (find cs n)
unfolding find change
find-change [] m f n keep = ground arith
find-change (c ∷ cs) m f n keep = ground (
  arith,
  keep c,
  find-change cs m f n keep,
  eqb_ℤ_iff c.clientnum n,
  eqb_ℤ_iff c.clientnum m,
  eqb_ℤ_iff n m,
)

pub has-append : (xs : List ℤ) (x b : ℤ) → has (xs ++ (x ∷ [])) b ≡ has xs b || eqb_ℤ x b
unfolding has
has-append [] x b = ground arith
has-append (y ∷ xs) x b = ground (arith, has-append xs x b)

pub has-removeobj : (xs : List ℤ) (x b : ℤ) → has (removeobj xs x) b ≡ has xs b && not (eqb_ℤ x b)
unfolding has removeobj
has-removeobj [] x b = ground arith
has-removeobj (y ∷ xs) x b =
    ground (arith, has-removeobj xs x b, eqb_ℤ_iff y x, eqb_ℤ_iff y b, eqb_ℤ_iff x b)

-- A client that is found under a number has it.
pub find_number : (cs : List Member) (n : ℤ) (c : Member) → find cs n ≡ some c → c.clientnum ≡ n
unfolding find
find_number [] n c e = absurd (cc)
find_number (d ∷ cs) n c e = ground (arith, find_number cs n c, eqb_ℤ_iff d.clientnum n)

-- An entry of a list is in it.
pub nth-has :
    (xs : List ℤ) (i : ℕ) → i < length xs → (b : ℤ) × (get_elem? xs i ≡ some b) × (has xs b ≡ true)
unfolding has
nth-has [] i h = absurd (omega arith)
nth-has (x ∷ xs) zero h = (x, refl, ground (arith, eqb_refl x))
nth-has (x ∷ xs) (suc i) h = let (b, e, there) = nth-has xs i (omega arith) in (b, e, ground arith)

pub has_nth : (xs : List ℤ) (i : ℕ) (b : ℤ) → get_elem? xs i ≡ some b → has xs b ≡ true
unfolding has
has_nth [] i b e = absurd (cc)
has_nth (x ∷ xs) zero b e = ground (arith, eqb_ℤ_iff x b)
has_nth (x ∷ xs) (suc i) b e = ground (arith, has_nth xs i b e)

pub nth_past : {A : Type 0} (xs : List A) (i : ℕ) → get_elem? xs i ≡ none → length xs ≤ i
nth_past [] i e = omega arith
nth_past (x ∷ xs) zero e = absurd (cc)
nth_past (x ∷ xs) (suc i) e = omega (arith, nth_past xs i e)
