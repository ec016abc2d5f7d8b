-- ===== src/Bots/Teams/Ends.antt =====
-- `balanceteams` ends, and moves nobody but bots.
use spaghettimod.Prelude.{
  ℕ, zero, suc, ◌+◌, ◌<◌, ◌≡◌, refl, ◌∙◌, false, List, length, get_or, set, length-set, if-both,
  leb,
}
use spaghettimod.Prelude.Int.{ℤ}
use spaghettimod.Bots.Member.{Member, Host, Bots, find, has}
use spaghettimod.Bots.Teams.{TeamScore, bubble, Balance, unbalanced, no_team}

pub length-bubble : (j : ℕ) (ts : List TeamScore) → length (bubble j ts) ≡ length ts
unfolding bubble
length-bubble zero ts = refl
length-bubble (suc j) ts =
    let upper = get_or ts j no_team in
    let lower = get_or ts (suc j) no_team in
    if-both (λ l. length l ≡ length ts) (leb lower.score upper.score) ts
      (bubble j (set (set ts j lower) (suc j) upper)) (λ e. refl)
      (λ e.
        length-bubble j (set (set ts j lower) (suc j) upper)
        ∙ length-set (set ts j lower) (suc j) upper
        ∙ length-set ts j lower)

-- The list has no `n`, and keeps none.
abbrev Lacks : ℤ → List ℤ → Type 0
Lacks n xs = has xs n ≡ false

module _ {M : Type 0} (host : Host M) where
  -- What a round does: it has less bots or teams left, and changes nobody that is not a bot.
  record Less (b c : Balance M) : Type 0 where
    fewer : length c.reassign + length c.teams < length b.reassign + length b.teams
    lacks : (n : ℤ) → Lacks n b.reassign → Lacks n c.reassign
    others : (n : ℤ) → Lacks n b.reassign → find c.state.clients n ≡ find b.state.clients n

  -- How the loop ends: nothing is left to move, and nobody that is not a bot has changed.
  record Balanced (b c : Balance M) : Type 0 where
    still : unbalanced host c ≡ false
    kept : (n : ℤ) → Lacks n b.reassign → find c.state.clients n ≡ find b.state.clients n
