-- ===== src/Bots/Teams/Credit.antt =====
-- The team that `balanceteams` puts a bot in, and the team whose score it raises.
use spaghettimod.Prelude.{ℕ, ◌+◌, ◌-◌, ◌≡◌, List, length, get_or, modify}
use spaghettimod.Bots.Teams.{TeamScore, no_team}
use spaghettimod.Bots.Member.{Member, Bots}

abbrev given : List TeamScore → List TeamScore
given ts =
    modify (modify ts 0 (λ t. record t { score = t.score - 1 })) (length ts - 1)
      (λ t. record t { score = t.score + 1 })

-- The entry is at some place.
abbrev pub Present : TeamScore → List TeamScore → Type 0
Present t ts = (k : ℕ) × (get_or ts k no_team ≡ t)
