-- ===== src/Votes/Tests.antt =====
-- Three clients, of which two vote for the same map.
use spaghettimod.Prelude.{ℕ, ◌≡◌, ◌<◌, ◌*◌, true, ◌&&◌, ◌==◌, if◌then◌else◌, List, [], ◌∷◌, arith}
use spaghettimod.Prelude.Int.{pos}
use spaghettimod.Game.Names.{Name, name_of, same_name}
use spaghettimod.Game.Modes.{m_valid}
use spaghettimod.Game.Samples.{counting}
use spaghettimod.Bots.Samples.{person}
use spaghettimod.Votes.{Voter, may_vote, checkvotes, change_map, rotate}
use spaghettimod.Votes.Majority.{votes_for, electorate, checkvotes_majority}

abbrev voter : ℕ → Name → Voter
voter n map = record { client = person n [] []; mapvote = map; modevote = pos 0 }

abbrev voters : List Voter
voters = voter 0 (name_of "turbine") ∷ voter 1 (name_of "dust2") ∷ voter 2 (name_of "dust2") ∷ []

dust2_wins : electorate voters < 2 * votes_for (name_of "dust2") (pos 0) voters
unfolding electorate votes_for may_vote m_valid same_name
dust2_wins = omega arith

checkvotes_majority_example : (checkvotes true voters counting).0 ≡ (
    if true && votes_for (name_of "dust2") (pos 0) voters == 1
    then rotate
    else change_map (name_of "dust2") (pos 0))
checkvotes_majority_example =
    checkvotes_majority true (name_of "dust2") (pos 0) voters counting dust2_wins
