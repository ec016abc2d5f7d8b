-- ===== src/Prelude/Loop.antt =====
-- `for(i = 0; i < n; i++) s = body(i, s)`, with `n` read once.
use Prim.Native.Nat.{ℕ, zero, suc, ◌+◌, ◌<◌}
use mathlib.Core.Path.{◌≡◌}
use native.Mathlib.Omega.{arith}

-- `k` rounds are left; the last has the index `n - 1`, so the first has `n - k`.
pub rounds {ℓ} : {S : Type ℓ} → (ℕ → S → S) → ℕ → ℕ → S → S
rounds body zero i s = s
rounds body (suc k) i s = rounds body k (suc i) (body i s)

unfoldable pub for_each {ℓ} : {S : Type ℓ} → ℕ → (ℕ → S → S) → S → S
unfolding rounds
for_each n body s = rounds body n 0 s

module _ {ℓ κ} {S : Type ℓ} (P : S → Type κ) (body : ℕ → S → S) where
  rounds_keep :
      ((i : ℕ) (s : S) → P s → P (body i s)) → (k i : ℕ) (s : S) → P s → P (rounds body k i s)
  unfolding rounds
  rounds_keep keep zero i s h = h
  rounds_keep keep (suc k) i s h = rounds_keep keep k (suc i) (body i s) (keep i s h)

  -- What every round keeps, the loop keeps.
  pub for_each_keep :
      ((i : ℕ) (s : S) → P s → P (body i s)) → (n : ℕ) (s : S) → P s → P (for_each n body s)
  unfolding for_each
  for_each_keep keep n s h = rounds_keep keep n 0 s h

-- An invariant that counts the rounds: `P i` before the round of index `i`.
module _ {ℓ κ} {S : Type ℓ} (P : ℕ → S → Type κ) (body : ℕ → S → S) (n : ℕ) where
  rounds_count :
      ((i : ℕ) (s : S) → i < n → P i s → P (suc i) (body i s))
      → (k i : ℕ) (s : S) → i + k ≡ n
      → P i s
      → P n (rounds body k i s)
  unfolding rounds
  rounds_count keep zero i s e h = rw (at_end i e) at h
    where
      at_end : (i : ℕ) → i + 0 ≡ n → i ≡ n
      at_end i e = omega arith
  rounds_count keep (suc k) i s e h =
      rounds_count keep k (suc i) (body i s) (omega arith) (keep i s (omega arith) h)

  pub for_each_count :
      ((i : ℕ) (s : S) → i < n → P i s → P (suc i) (body i s))
      → (s : S) → P 0 s
      → P n (for_each n body s)
  unfolding for_each
  for_each_count keep s h = rounds_count keep n 0 s (omega arith) h
