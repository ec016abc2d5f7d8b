-- ===== src/Votes/Majority.antt =====
-- A map that more than half of the voters vote for is played next.
use spaghettimod.Prelude.{
  ℕ, suc, ◌+◌, ◌*◌, ◌/◌, ◌≤◌, ◌<◌, ◌≡◌, refl, Bool, true, false, ◌&&◌, List, [], ◌∷◌, Option, none,
  some, arith, ltb, ◌==◌, if◌then◌else◌, if-both, Bool-cases, inl, inr,
}
use spaghettimod.Prelude.Int.{ℤ, eqb_ℤ, eqb_ℤ_iff}
use spaghettimod.Game.Names.{Name, same_name, same_name_iff}
use spaghettimod.Game.Modes.{m_valid}
use spaghettimod.Game.Random.{Rng, rnd}
use spaghettimod.Votes.{
  Voter, VoteCount, same_vote, count_vote, may_vote, tally, best_vote, change_map, rotate, decide,
  checkvotes,
}

-- How many clients vote for a map in a valid mode, and how many may vote.
unfoldable pub votes_for : Name → ℤ → List Voter → ℕ
votes_for map mode [] = 0
votes_for map mode (oi ∷ os) =
    let rest = votes_for map mode os in
    if may_vote oi && m_valid oi.modevote && same_name oi.mapvote map && eqb_ℤ oi.modevote mode
    then suc rest
    else rest

unfoldable pub electorate : List Voter → ℕ
electorate [] = 0
electorate (oi ∷ os) = let rest = electorate os in if may_vote oi then suc rest else rest

unfoldable count_of : Name → ℤ → List VoteCount → ℕ
count_of map mode [] = 0
count_of map mode (v ∷ vs) =
    let rest = count_of map mode vs in if same_vote v map mode then v.count else rest

unfoldable total : List VoteCount → ℕ
total [] = 0
total (v ∷ vs) = v.count + total vs

count_of-le : (map : Name) (mode : ℤ) (vs : List VoteCount) → count_of map mode vs ≤ total vs
unfolding count_of total
count_of-le map mode [] = omega arith
count_of-le map mode (v ∷ vs) = ground (arith, count_of-le map mode vs)

total-count_vote :
    (map : Name) (mode : ℤ) (vs : List VoteCount) → total (count_vote map mode vs) ≡ total vs + 1
unfolding count_vote total
total-count_vote map mode [] = omega arith
total-count_vote map mode (v ∷ vs) = ground (arith, total-count_vote map mode vs)

count_of-count_vote :
    (map m : Name) (mode k : ℤ) (vs : List VoteCount)
    → count_of map mode (count_vote m k vs)
      ≡ (if same_name m map && eqb_ℤ k mode then count_of map mode vs + 1 else count_of map mode vs)
unfolding count_vote count_of same_vote
count_of-count_vote map m mode k [] =
    ground (arith, same_name_iff m map, same_name_iff map m, eqb_ℤ_iff k mode, eqb_ℤ_iff mode k)
count_of-count_vote map m mode k (v ∷ vs) = ground (
  arith,
  count_of-count_vote map m mode k vs,
  same_name_iff m map,
  same_name_iff m v.map,
  same_name_iff map v.map,
  eqb_ℤ_iff k mode,
  eqb_ℤ_iff k v.mode,
  eqb_ℤ_iff mode v.mode,
)

-- What the tally counts.
tally-counts :
    (map : Name) (mode : ℤ) (os : List Voter) (vs : List VoteCount) (n : ℕ)
    → (count_of map mode (tally os vs n).0 ≡ votes_for map mode os + count_of map mode vs)
      × ((tally os vs n).1 ≡ electorate os + n)
      × (total (tally os vs n).0 + n ≤ (tally os vs n).1 + total vs)
unfolding tally votes_for electorate
tally-counts map mode [] vs n = (omega arith, omega arith, omega arith)
tally-counts map mode (oi ∷ os) vs n =
    let without = tally-counts map mode os vs n in
    let invalid = tally-counts map mode os vs (n + 1) in
    let with = tally-counts map mode os (count_vote oi.mapvote oi.modevote vs) (n + 1) in
    let sum = total-count_vote oi.mapvote oi.modevote vs in
    let own = count_of-count_vote map oi.mapvote mode oi.modevote vs in
    elim (Bool-cases (may_vote oi)) [
      | inr cannot ↦ rw cannot without
      | inl can ↦ elim (Bool-cases (m_valid oi.modevote)) [
        | inr bad ↦ rw (can, bad) (ground (arith, invalid))
        | inl good ↦ rw (can, good) (ground (arith, with, sum, own))
      ]
    ]

zero_counts : (map : Name) (mode : ℤ) → (count_of map mode [] ≡ 0) × (total [] ≡ 0)
unfolding count_of total
zero_counts map mode = (refl, refl)

-- No vote left has as many voices, so the choice stays.
best_vote-stays :
    (b : VoteCount) (vs : List VoteCount) (r : Rng)
    → total vs < b.count
    → (best_vote (some b) vs r).0 ≡ some b
unfolding best_vote total
best_vote-stays b [] r h = refl
best_vote-stays b (v ∷ vs) r h = ground (arith, best_vote-stays b vs r)

-- The choice so far has less voices.
abbrev Behind : ℕ → Option VoteCount → Type 0
Behind c none = Unit
Behind c (some b) = b.count < c

record Wins (map : Name) (mode : ℤ) (c : ℕ) (o : Option VoteCount) : Type 0 where
  winner : VoteCount
  chosen : o ≡ some winner
  same_map : winner.map ≡ map
  same_mode : winner.mode ≡ mode
  voices : winner.count ≡ c

-- The entry of the map is chosen when it comes, and stays.
Wins-here :
    (map : Name) (mode : ℤ) (c : ℕ) (v : VoteCount) (vs : List VoteCount) (r : Rng)
    → same_vote v map mode ≡ true
    → count_of map mode (v ∷ vs) ≡ c
    → total (v ∷ vs) < c + c
    → (v.count ≡ c) × Wins map mode c (best_vote (some v) vs r).0
unfolding same_vote count_of total
Wins-here map mode c v vs r same has less =
    let full : v.count ≡ c = ground arith in
    (
      full,
      record {
        winner = v;
        chosen = best_vote-stays v vs r (omega arith);
        same_map = ground (arith, same_name_iff map v.map);
        same_mode = ground (arith, eqb_ℤ_iff mode v.mode);
        voices = full;
      },
    )

-- Any other entry has less voices, and leaves the map's entry to come.
other_entry :
    (map : Name) (mode : ℤ) (c : ℕ) (v : VoteCount) (vs : List VoteCount)
    → same_vote v map mode ≡ false
    → count_of map mode (v ∷ vs) ≡ c
    → total (v ∷ vs) < c + c
    → (v.count < c) × (count_of map mode vs ≡ c) × (total vs < c + c)
unfolding count_of total
other_entry map mode c v vs other has less =
    let rest : count_of map mode vs ≡ c = ground arith in
    (omega (arith, rest, count_of-le map mode vs), rest, omega arith)

best_vote-Wins :
    (map : Name) (mode : ℤ) (c : ℕ) (b : Option VoteCount) (vs : List VoteCount) (r : Rng)
    → 0 < c
    → Behind c b
    → count_of map mode vs ≡ c
    → total vs < c + c
    → Wins map mode c (best_vote b vs r).0
unfolding best_vote count_of
best_vote-Wins map mode c b [] r pos behind has less = absurd (omega arith)
best_vote-Wins map mode c none (v ∷ vs) r pos behind has less =
    elim (Bool-cases (same_vote v map mode)) [
      | inl same ↦ (Wins-here map mode c v vs r same has less).1
      | inr other ↦
          let (fewer, rest, small) = other_entry map mode c v vs other has less in
          best_vote-Wins map mode c (some v) vs r pos fewer rest small
    ]
best_vote-Wins map mode c (some b) (v ∷ vs) r pos behind has less =
    elim (Bool-cases (same_vote v map mode)) [
      | inl same ↦
          let (full, wins) = Wins-here map mode c v vs r same has less in
          let more : ltb b.count v.count ≡ true = ground arith in rw more wins
      | inr other ↦
          let (fewer, rest, small) = other_entry map mode c v vs other has less in
          let P : Option VoteCount × Rng → Type 0 = λ x. Wins map mode c x.0 in
          let next = (rnd 2 r).1 in
          if-both P (ltb b.count v.count) _ _
            (λ e. best_vote-Wins map mode c (some v) vs r pos fewer rest small)
            (λ e.
              if-both P (v.count == b.count) _ _
                (λ tie.
                  best_vote-Wins map mode c (if (rnd 2 r).0 == 0 then some b else some v) vs next
                    pos
                    (if-both (Behind c) ((rnd 2 r).0 == 0) (some b) (some v) (λ z. behind)
                      (λ z. fewer))
                    rest small)
                (λ less_votes. best_vote-Wins map mode c (some b) vs r pos behind rest small))
    ]

-- When more than half of the clients that may vote vote for the same map in the same valid mode,
-- checkvotes changes to that map in that mode, whatever the random numbers are; but when it is
-- forced to change the map and there is only one such vote, it goes to the next map of the rotation.
pub checkvotes_majority :
    (force : Bool) (map : Name) (mode : ℤ) (voters : List Voter) (r : Rng)
    → electorate voters < 2 * votes_for map mode voters
    → (checkvotes force voters r).0
      ≡ (if force && votes_for map mode voters == 1 then rotate else change_map map mode)
unfolding checkvotes decide
checkvotes_majority force map mode voters r most =
    let (own, all, sum) = tally-counts map mode voters [] 0 in
    let none_yet : (count_of map mode [] ≡ 0) × (total [] ≡ 0) = zero_counts map mode in
    let c = votes_for map mode voters in
    let wins =
      best_vote-Wins map mode c none (tally voters [] 0).0 r (omega arith) tt
        (omega (arith, own, none_yet.0)) (omega (arith, all, sum, none_yet.1)) in
    let half : (tally voters [] 0).1 / 2 < wins.winner.count = omega (arith, all, wins.voices) in
    rw wins.chosen (ground (arith, half, most, wins.voices, wins.same_map, wins.same_mode))
