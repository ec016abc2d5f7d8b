-- ===== src/Game/Random.antt =====
-- `rnd(x)` of shared/tools.h over the numbers that `randomMT` gives, in the order of the calls.
use spaghettimod.Prelude.{ℕ, ◌+◌, ◌%◌, ◌<◌, ◌^◌}
use native.Mathlib.Nat.{mod-lt}

-- The generator's outputs, each with its top bit cleared, and how many of them are used up.
pub record Rng : Type 0 where
  pub output : ℕ → ℕ
  pub used : ℕ

unfoldable pub rnd : ℕ → Rng → ℕ × Rng
rnd x r = (r.output r.used % 2 ^ 31 % x, record r { used = r.used + 1 })

pub rnd-lt : (x : ℕ) (r : Rng) → 0 < x → (rnd x r).0 < x
unfolding rnd
rnd-lt x r h = mod-lt (r.output r.used % 2 ^ 31) h
