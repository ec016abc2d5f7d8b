-- ===== src/Scores/Tests.antt =====
-- A client that leaves with a score, somebody else who leaves, and the first who comes back.
use spaghettimod.Prelude.{ℕ, ◌==◌, if◌then◌else◌, ◌+◌, ◌≡◌, refl, false, [], ◌∷◌, some, arith}
use spaghettimod.Prelude.Int.{ℤ, pos}
use spaghettimod.Game.Names.{Name, name_of, same_name}
use spaghettimod.Scores.{Stats, Scorer, savescore, restorescore}
use spaghettimod.Scores.Back.{save_all, restorescore-savescore}

abbrev with_frags : ℕ → Stats ℕ
with_frags n = record {
  frags = pos n;
  flags = pos 1;
  deaths = pos 3;
  teamkills = pos 0;
  shotdamage = pos 900;
  damage = pos 500;
  timeplayed = pos 60000;
  effectiveness = 0;
}

abbrev scorer : ℕ → Name → ℕ → Scorer ℕ
scorer n name frags = record {
  clientnum = pos n;
  local = false;
  name = name;
  lasttimeplayed = pos 0;
  stats = with_frags frags;
}

-- The addresses of the numbers when ann leaves.
abbrev addresses : ℤ → ℕ
addresses (pos n) = n + 1
addresses n = 0

-- Later the number 0 is bob's, and 5 is ann's.
abbrev later_addresses : ℤ → ℕ
later_addresses (pos n) = if n == 5 then 1 else n + 7
later_addresses n = 0

restorescore-savescore_example :
    restorescore later_addresses
      (pos 70000)
      (scorer 5 (name_of "ann") 0)
      (scorer 2 (name_of "cid") 4 ∷ [])
      (save_all
        ((later_addresses, scorer 0 (name_of "bob") 2) ∷ [])
        (savescore addresses (scorer 0 (name_of "ann") 7) []))
    ≡ (some (with_frags 7), scorer 2 (name_of "cid") 4 ∷ [])
unfolding same_name
restorescore-savescore_example =
    restorescore-savescore addresses later_addresses (pos 70000) (scorer 0 (name_of "ann") 7)
      (scorer 5 (name_of "ann") 0) ((later_addresses, scorer 0 (name_of "bob") 2) ∷ [])
      (scorer 2 (name_of "cid") 4 ∷ []) [] (omega arith) refl refl refl refl
      ((omega arith, refl), tt) (refl, tt)
