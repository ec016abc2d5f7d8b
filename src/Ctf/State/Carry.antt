-- ===== src/Ctf/State/Carry.antt =====
-- Who carries what: the number of flags that a client owns.
use mathlib.Core.List.{map}
use spaghettimod.Prelude.{
  ℕ, zero, suc, ◌+◌, ◌≤◌, ◌<◌, ◌≡◌, refl, ◌⊎◌, inl, inr, false, List, [], ◌∷◌, none, some, arith,
  length, get_or, modify, if◌then◌else◌,
}
use spaghettimod.Prelude.Int.{ℤ, pos, eqb_ℤ, eqb_ℤ_iff}
use spaghettimod.Ctf.Flag.{Flag, nobody, has_owner}
use spaghettimod.Ctf.State.{carried_by}

module _ {F : Type 0} where
  abbrev pub holds : ℤ → Flag F → ℕ
  holds cn f = if eqb_ℤ f.owner cn then 1 else 0

  -- The number of flags that the client carries.
  abbrev pub carried : ℤ → List (Flag F) → ℕ
  carried cn [] = 0
  carried cn (f ∷ fs) = holds cn f + carried cn fs

  -- Nobody carries two flags.
  abbrev pub OneEach : List (Flag F) → Type 0
  OneEach fs = (n : ℕ) → carried (pos n) fs ≤ 1

  pub carried_by-none : (cn : ℤ) (fs : List (Flag F)) → carried_by cn fs ≡ none → carried cn fs ≡ 0
  unfolding carried_by
  carried_by-none cn [] e = refl
  carried_by-none cn (f ∷ fs) e = ground (arith, carried_by-none cn fs)

  pub carried_by-some :
      (cn : ℤ) (fs : List (Flag F)) (j : ℕ) (d : Flag F)
      → carried_by cn fs ≡ some j
      → (j < length fs) × ((get_or fs j d).owner ≡ cn)
  unfolding carried_by
  carried_by-some cn [] j d e = absurd (cc)
  carried_by-some cn (f ∷ fs) zero d e = (omega arith, ground (arith, eqb_ℤ_iff f.owner cn))
  carried_by-some cn (f ∷ fs) (suc j) d e = ground (arith, carried_by-some cn fs j d)

  -- A change that leaves a flag's owner or takes it away takes flags from clients, and gives none.
  abbrev pub Releases : (Flag F → Flag F) → Type 0
  Releases change = (f : Flag F) → ((change f).owner ≡ f.owner) ⊎ ((change f).owner ≡ nobody)

  carried-release :
      (n : ℕ) (f g : Flag F)
      → (g.owner ≡ f.owner) ⊎ (g.owner ≡ nobody)
      → holds (pos n) g ≤ holds (pos n) f
  carried-release n f g (inl e) = rw e (omega arith)
  carried-release n f g (inr e) = rw e (omega arith)

  pub carried-modify_le :
      (n : ℕ) (fs : List (Flag F)) (i : ℕ) (change : Flag F → Flag F)
      → Releases change
      → carried (pos n) (modify fs i change) ≤ carried (pos n) fs
  carried-modify_le n [] i change r = omega arith
  carried-modify_le n (f ∷ fs) zero change r = omega (arith, carried-release n f (change f) (r f))
  carried-modify_le n (f ∷ fs) (suc i) change r = omega (arith, carried-modify_le n fs i change r)

  pub carried-map_le :
      (n : ℕ) (fs : List (Flag F)) (change : Flag F → Flag F)
      → Releases change
      → carried (pos n) (map change fs) ≤ carried (pos n) fs
  carried-map_le n [] change r = omega arith
  carried-map_le n (f ∷ fs) change r =
      omega (arith, carried-release n f (change f) (r f), carried-map_le n fs change r)

  -- A flag that nobody carries is given to a client.
  pub carried-give :
      (cn : ℤ) (fs : List (Flag F)) (i : ℕ) (change : Flag F → Flag F) (d : Flag F)
      → i < length fs
      → has_owner (get_or fs i d) ≡ false
      → ((f : Flag F) → (change f).owner ≡ cn)
      → (n : ℕ)
      → carried (pos n) (modify fs i change)
        ≡ holds (pos n) (change (get_or fs i d)) + carried (pos n) fs
  carried-give cn [] i change d h o c n = elim h [ ]
  carried-give cn (f ∷ fs) zero change d h o c n = ground arith
  carried-give cn (f ∷ fs) (suc i) change d h o c n =
      omega (arith, carried-give cn fs i change d (omega arith) o c n)
