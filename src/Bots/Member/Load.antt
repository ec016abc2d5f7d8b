-- ===== src/Bots/Member/Load.antt =====
-- Clients of distinct numbers, and how many pairs of bots have the same owner.
use mathlib.Core.Path.{subst}
use spaghettimod.Prelude.{
  ℕ, zero, suc, ◌+◌, ◌≤◌, ◌<◌, ◌≡◌, ◌≢◌, refl, ap, true, List, [], ◌∷◌, some, arith, length, All,
  if◌then◌else◌, Bool-cases, inl, inr,
}
use spaghettimod.Prelude.Int.{ℤ, eqb_ℤ, eqb_ℤ_iff}
use spaghettimod.Bots.Member.{Member, find, change, has, removeobj}
use spaghettimod.Bots.Member.Store.{KeepsNumber}

abbrev pub Avoids : ℤ → List Member → Type 0
Avoids n = All (λ d. d.clientnum ≢ n)

-- No two clients have the same number.
unfoldable pub Distinct : List Member → Type 0
Distinct [] = Unit
Distinct (c ∷ cs) = Avoids c.clientnum cs × Distinct cs

-- The number of pairs of `n` things.
unfoldable pub pairs : ℕ → ℕ
pairs zero = 0
pairs (suc n) = n + pairs n

unfoldable pub load : List Member → ℕ
load [] = 0
load (c ∷ cs) = pairs (length c.bots) + load cs

pub pairs_mono : (m n : ℕ) → m ≤ n → pairs m ≤ pairs n
unfolding pairs
pairs_mono zero n h = omega arith
pairs_mono (suc m) zero h = absurd (omega arith)
pairs_mono (suc m) (suc n) h = omega (arith, pairs_mono m n)

pub pairs_next : (n : ℕ) → pairs (n + 1) ≡ n + pairs n
unfolding pairs
pairs_next n = let next : n + 1 ≡ suc n = omega arith in ap pairs next

-- What leaves the longer of two lists counts more than what joins the other.
pub pairs_fall : (l h r : ℕ) → r < h → l + 1 < h → pairs r + l < pairs h
unfolding pairs
pairs_fall l zero r less gap = absurd (omega arith)
pairs_fall l (suc k) r less gap = omega (arith, pairs_mono r k)

Avoids-change :
    (cs : List Member) (m k : ℤ) (f : Member → Member)
    → KeepsNumber f
    → Avoids k cs
    → Avoids k (change cs m f)
unfolding change
Avoids-change [] m k f keep h = tt
Avoids-change (c ∷ cs) m k f keep h = (ground (arith, keep c, h.0), Avoids-change cs m k f keep h.1)

pub Distinct-change :
    (cs : List Member) (m : ℤ) (f : Member → Member)
    → KeepsNumber f
    → Distinct cs
    → Distinct (change cs m f)
unfolding Distinct change
Distinct-change [] m f keep h = tt
Distinct-change (c ∷ cs) m f keep h =
    let num : (if eqb_ℤ c.clientnum m then f c else c).clientnum ≡ c.clientnum =
      ground (arith, keep c) in
    (rw num (Avoids-change cs m c.clientnum f keep h.0), Distinct-change cs m f keep h.1)

change_avoided : (cs : List Member) (n : ℤ) (f : Member → Member) → Avoids n cs → change cs n f ≡ cs
unfolding change
change_avoided [] n f h = refl
change_avoided (c ∷ cs) n f h =
    ground (arith, h.0, eqb_ℤ_iff c.clientnum n, change_avoided cs n f h.1)

pub load-change :
    (cs : List Member) (n : ℤ) (f : Member → Member) (c : Member)
    → Distinct cs
    → find cs n ≡ some c
    → load (change cs n f) + pairs (length c.bots) ≡ load cs + pairs (length (f c).bots)
unfolding Distinct change find load
load-change [] n f c h e = absurd (cc)
load-change (d ∷ cs) n f c h e = elim (Bool-cases (eqb_ℤ d.clientnum n)) [
  | inl same ↦
      let at_n : d.clientnum ≡ n = (eqb_ℤ_iff d.clientnum n).0 same in
      let rest = change_avoided cs n f (subst (λ k. Avoids k cs) at_n h.0) in
      let this : some d ≡ some c = rw same at e in ground (arith, rest)
  | inr other ↦
      let rest = load-change cs n f c h.1 (rw other at e) in rw other (omega (arith, rest))
]

-- What holds of every client holds of one that is found.
pub All-find {κ} :
    (P : Member → Type κ) (cs : List Member) (n : ℤ) (c : Member)
    → All P cs
    → find cs n ≡ some c
    → P c
unfolding find
All-find P [] n c h e = absurd (cc)
All-find P (d ∷ cs) n c h e = elim (Bool-cases (eqb_ℤ d.clientnum n)) [
  | inl same ↦ let this : some d ≡ some c = rw same at e in subst P (ground (arith, this)) h.0
  | inr other ↦ All-find P cs n c h.1 (rw other at e)
]

pub found_self : (cs : List Member) → Distinct cs → All (λ c. find cs c.clientnum ≡ some c) cs
unfolding Distinct find
found_self [] h = tt
found_self (c ∷ cs) h =
    (ground (arith, eqb_ℤ_iff c.clientnum c.clientnum), under cs (found_self cs h.1) h.0)
  where
    under :
        (ds : List Member)
        → All (λ d. find cs d.clientnum ≡ some d) ds
        → Avoids c.clientnum ds
        → All (λ d. find (c ∷ cs) d.clientnum ≡ some d) ds
    under [] found apart = tt
    under (d ∷ ds) found apart = (
      ground (arith, found.0, apart.0, eqb_ℤ_iff c.clientnum d.clientnum),
      under ds found.1 apart.1,
    )

-- A list loses an element when an object is removed that it has.
pub length-removeobj : (xs : List ℤ) (b : ℤ) → length (removeobj xs b) ≤ length xs
unfolding removeobj
length-removeobj [] b = omega arith
length-removeobj (x ∷ xs) b = ground (arith, length-removeobj xs b)

pub length-removeobj-has :
    (xs : List ℤ) (b : ℤ) → has xs b ≡ true → length (removeobj xs b) < length xs
unfolding removeobj has
length-removeobj-has [] b h = absurd (cc)
length-removeobj-has (x ∷ xs) b h = ground (arith, length-removeobj xs b, length-removeobj-has xs b)
