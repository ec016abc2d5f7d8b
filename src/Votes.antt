-- ===== src/Votes.antt =====
-- The votes for the next map (`checkvotes` of fpsgame/server.cpp). The hooks of the Lua scripts are
-- taken to be unset; what changes the map is noted as the outcome.
pub mod Majority
mod Tests
use mathlib.Core.Bool.{not}
use spaghettimod.Prelude.{
  ℕ, zero, suc, ◌+◌, ◌/◌, Bool, true, false, ◌&&◌, ◌||◌, List, [], ◌∷◌, Option, none, some, ltb,
  ◌==◌, if◌then◌else◌,
}
use spaghettimod.Prelude.Int.{ℤ, eqb_ℤ}
use spaghettimod.Game.Names.{Name, same_name}
use spaghettimod.Game.Modes.{m_valid}
use spaghettimod.Game.World.{is_spectator}
use spaghettimod.Game.Random.{Rng, rnd}
use spaghettimod.Bots.Member.{Member}

-- A client with its vote, `mapvote` and `modevote`.
pub record Voter : Type 0 where
  pub client : Member
  pub mapvote : Name
  pub modevote : ℤ

-- `votecount`
pub record VoteCount : Type 0 where
  pub map : Name
  pub mode : ℤ
  pub count : ℕ

unfoldable pub same_vote : VoteCount → Name → ℤ → Bool
same_vote v map mode = same_name map v.map && eqb_ℤ mode v.mode

unfoldable pub count_vote : Name → ℤ → List VoteCount → List VoteCount
count_vote map mode [] = record { map = map; mode = mode; count = 1 } ∷ []
count_vote map mode (v ∷ vs) =
    let rest = count_vote map mode vs in
    if same_vote v map mode then record v { count = v.count + 1 } ∷ vs else v ∷ rest

-- Whether the client's vote matters.
unfoldable pub may_vote : Voter → Bool
may_vote oi =
    not (is_spectator oi.client.life && oi.client.privilege == 0 && not oi.client.local)
    && not oi.client.is_ai

-- The votes, and the number of clients that may vote.
unfoldable pub tally : List Voter → List VoteCount → ℕ → List VoteCount × ℕ
tally [] votes maxvotes = (votes, maxvotes)
tally (oi ∷ os) votes maxvotes =
    if not (may_vote oi)
    then tally os votes maxvotes
    else if not (m_valid oi.modevote)
    then tally os votes (maxvotes + 1)
    else tally os (count_vote oi.mapvote oi.modevote votes) (maxvotes + 1)

-- A tie is drawn; a number is drawn for nothing else.
unfoldable pub best_vote : Option VoteCount → List VoteCount → Rng → Option VoteCount × Rng
best_vote best [] r = (best, r)
best_vote none (v ∷ vs) r = best_vote (some v) vs r
best_vote (some b) (v ∷ vs) r =
    let (n, r') = rnd 2 r in
    if ltb b.count v.count
    then best_vote (some v) vs r
    else if v.count == b.count
    then best_vote (if n == 0 then some b else some v) vs r'
    else best_vote (some b) vs r

-- What follows from the votes.
pub data VoteOutcome : Type 0 where
  no_change rotate : VoteOutcome
  change_map : Name → ℤ → VoteOutcome

abbrev pub count_of_best : Option VoteCount → ℕ
count_of_best none = 0
count_of_best (some b) = b.count

unfoldable pub decide : Bool → ℕ → Option VoteCount → VoteOutcome
decide force maxvotes none = if force then rotate else no_change
decide force maxvotes (some b) =
    if force || ltb (maxvotes / 2) b.count
    then (if ltb (if force then 1 else maxvotes / 2) b.count
        then change_map b.map b.mode
        else rotate)
    else no_change

unfoldable pub checkvotes : Bool → List Voter → Rng → VoteOutcome × Rng
checkvotes force voters r =
    let (votes, maxvotes) = tally voters [] 0 in
    let (best, r') = best_vote none votes r in (decide force maxvotes best, r')
