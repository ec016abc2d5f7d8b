-- ===== src/Game/Modes/Laws.antt =====
-- What the table promises to the code that asks for one mode after the other.
use mathlib.Core.Bool.{not}
use spaghettimod.Prelude.{ℕ, zero, suc, ◌≡◌, refl, Bool, true, false, ◌&&◌, ◌||◌, arith, ◌⊎◌}
use spaghettimod.Prelude.Bits.{every_below, every_below→}
use spaghettimod.Prelude.Int.{ℤ, pos, negsuc}
use spaghettimod.Game.Modes.{
  m_valid, m_hold, m_protect, m_ctf, m_capture, m_regencapture, m_collect, m_teammode,
}

-- The mode at an index of the table.
mode_at : ℕ → ℤ
mode_at zero = negsuc 2
mode_at (suc zero) = negsuc 1
mode_at (suc (suc zero)) = negsuc 0
mode_at (suc (suc (suc n))) = pos n

-- A test that holds of the modes of the table holds of every valid mode.
valid_by_table :
    (test : ℤ → Bool)
    → every_below 26 (λ i. test (mode_at i)) ≡ true
    → (m : ℤ) → m_valid m ≡ true
    → test m ≡ true
unfolding m_valid mode_at
valid_by_table test table (pos n) v =
    every_below→ 26 (λ i. test (mode_at i)) (suc (suc (suc n))) table (ground arith)
valid_by_table test table (negsuc zero) v =
    every_below→ 26 (λ i. test (mode_at i)) 2 table (omega arith)
valid_by_table test table (negsuc (suc zero)) v =
    every_below→ 26 (λ i. test (mode_at i)) 1 table (omega arith)
valid_by_table test table (negsuc (suc (suc zero))) v =
    every_below→ 26 (λ i. test (mode_at i)) 0 table (omega arith)
valid_by_table test table (negsuc (suc (suc (suc n)))) v = ground arith

abbrev implies : Bool → Bool → Bool
implies a b = not a || b

-- The objective of a mode: at most one of hold, protect, capture and collect, and never without teams.
abbrev objective_ok : ℤ → Bool
objective_ok m =
    implies (m_hold m) (m_ctf m && m_teammode m && not (m_protect m || m_capture m || m_collect m))
    && implies (m_protect m) (m_ctf m && m_teammode m && not (m_capture m || m_collect m))
    && implies (m_capture m) (m_teammode m && not (m_ctf m || m_collect m))
    && implies (m_collect m) (m_teammode m && not (m_ctf m || m_capture m))
    && implies (m_regencapture m) (m_capture m)

objective_table : every_below 26 (λ i. objective_ok (mode_at i)) ≡ true
unfolding every_below mode_at m_hold m_protect m_ctf m_capture m_regencapture m_collect m_teammode
objective_table = refl

-- The objective of a mode.
abbrev pub Exclusive : ℤ → Type 0
Exclusive m =
    ((m_hold m ≡ false)
      ⊎ ((m_ctf m ≡ true)
          × (m_teammode m ≡ true)
          × (m_protect m ≡ false)
          × (m_capture m ≡ false)
          × (m_collect m ≡ false)))
    × ((m_protect m ≡ false)
        ⊎ ((m_ctf m ≡ true)
            × (m_teammode m ≡ true)
            × (m_capture m ≡ false)
            × (m_collect m ≡ false)))
    × ((m_capture m ≡ false) ⊎ ((m_teammode m ≡ true) × (m_ctf m ≡ false) × (m_collect m ≡ false)))
    × ((m_collect m ≡ false) ⊎ ((m_teammode m ≡ true) × (m_ctf m ≡ false) × (m_capture m ≡ false)))
    × ((m_regencapture m ≡ false) ⊎ (m_capture m ≡ true))

-- In a valid mode the four objectives exclude one another: hold and protect are played with flags,
-- capture and skull collecting without; regeneration is a variant of capture; and each of them is
-- a team mode.
pub objectives_exclude : (m : ℤ) → m_valid m ≡ true → Exclusive m
objectives_exclude m v = ground (arith, valid_by_table objective_ok objective_table m v)
