-- ===== src/Bots/Tests.antt =====
-- Three clients and two bots, which the first client owns.
use spaghettimod.Prelude.{
  ℕ, ◌≤◌, ◌≡◌, refl, true, false, inr, ◌⊎◌, List, [], ◌∷◌, some, arith, length, All,
}
use spaghettimod.Prelude.Int.{pos}
use spaghettimod.Game.Names.{Name, name_of}
use spaghettimod.Game.Samples.{counting, clock}
use spaghettimod.Bots.Samples.{person}
use spaghettimod.Bots.Member.{Member, Host, Bots, find, has, maxbots}
use spaghettimod.Bots.Member.Load.{Distinct, pairs, load}
use spaghettimod.Bots.Assign.{
  validaiclient, is_excluded, findaiclient, shiftai, removeai, reassign_all,
}
use spaghettimod.Bots.Assign.Owners.{lists, owns, assign, Shows}
use spaghettimod.Bots.Assign.Moves.{shiftai-Shows}
use spaghettimod.Bots.Assign.Even.{Sound}
use spaghettimod.Bots.Assign.Loop.{Ended, reassign_all-Ended}
use spaghettimod.Bots.Assign.Removal.{Unowned, removeai-Freed}
use spaghettimod.Bots.Assign.Least.{Holds, AtMost, findaiclient_least}
use spaghettimod.Bots.Roster.{addai}
use spaghettimod.Bots.Roster.Slots.{addai_bounds}
use spaghettimod.Bots.Teams.{TeamScore, last_team, has_team, calcteams, Balance}
use spaghettimod.Bots.Teams.Count.{players_of, calcteams-players}

abbrev robot : ℕ → Name → Member
robot n team = record (person n [] team) { is_ai = true; ownernum = pos 0; skill = 75 }

abbrev crowd : List Member
crowd =
    person 0 (pos 128 ∷ pos 129 ∷ []) (name_of "good")
    ∷ person 1 [] (name_of "evil")
    ∷ robot 128 (name_of "good")
    ∷ robot 129 (name_of "evil")
    ∷ []

-- Without a game mode.
abbrev no_mode : Host Unit
no_mode = record { leavegame = λ n m. m; changeteam = λ n old new m. m; spawn = λ p r. (p, r) }

abbrev game : Bots Unit
game = record {
  clients = crowd;
  slots = some (pos 128) ∷ some (pos 129) ∷ [];
  mode = tt;
  dorefresh = true;
  botbalance = true;
  botlimit = 8;
  rng = counting;
  sent = [];
}

crowd-Sound : Sound crowd
unfolding Distinct find lists owns has
crowd-Sound = record {
  distinct = ground arith;
  real = refl;
  shows = record { by_lists = λ n b. refl; by_owners = λ n b. ground arith };
}

abbrev first_person : Member
first_person = person 0 (pos 128 ∷ pos 129 ∷ []) (name_of "good")

abbrev first_robot : Member
first_robot = robot 128 (name_of "good")

abbrev scores : List TeamScore
scores =
    record { team = name_of "red"; score = 5 }
    ∷ record { team = name_of "blue"; score = 1 }
    ∷ record { team = name_of "lime"; score = 1 }
    ∷ []

shiftai-Shows_example :
    Shows
      (assign (pos 128) (some (pos 1)) (lists crowd))
      (shiftai no_mode first_robot (some (pos 1)) game).clients
unfolding find
shiftai-Shows_example =
    shiftai-Shows no_mode (lists crowd) first_robot (some (pos 1)) game refl refl refl
      (λ e. cc, λ e. ground arith) crowd-Sound.shows

reassign_all-Ended_example :
    (t : Bots Unit) × (reassign_all no_mode 2 game ≡ some t) × Ended no_mode t
unfolding load pairs
reassign_all-Ended_example = reassign_all-Ended no_mode 2 game crowd-Sound (omega arith)

-- The game without the first client, which disconnects.
abbrev left_game : Bots Unit
left_game = record game {
  clients =
      person 1 [] (name_of "evil") ∷ robot 128 (name_of "good") ∷ robot 129 (name_of "evil") ∷ [];
}

removeai-Freed_example :
    let t = (removeai no_mode first_person left_game).1 in
    Sound t.clients × Unowned (pos 0) t.clients
unfolding find
removeai-Freed_example =
    removeai-Freed no_mode first_person left_game refl (inr (refl, crowd-Sound))

findaiclient_least_example :
    Holds
      (λ c. (validaiclient c ≡ true) × (is_excluded (some (pos 0)) c ≡ false))
      (findaiclient crowd (some (pos 0)))
    × All
        (λ c.
          validaiclient c ≡ true
          → is_excluded (some (pos 0)) c ≡ false
          → AtMost (findaiclient crowd (some (pos 0))) (length c.bots))
        crowd
findaiclient_least_example = findaiclient_least crowd (some (pos 0))

addai_bounds_example :
    (length (addai no_mode (clock (pos 0)) (pos 75) (pos 8) game).1.slots ≤ maxbots)
    × ((addai no_mode (clock (pos 0)) (pos 75) (pos 8) game).0 ≡ false
        → (addai no_mode (clock (pos 0)) (pos 75) (pos 8) game).1 ≡ game)
addai_bounds_example = addai_bounds no_mode (clock (pos 0)) (pos 75) (pos 8) game (omega arith)

-- The bot 128 is in the first of three teams.
abbrev red_robot : Member
red_robot = robot 128 (name_of "red")

abbrev uneven : Balance Unit
uneven = record {
  teams = scores;
  reassign = pos 128 ∷ [];
  state = record game { clients = red_robot ∷ [] };
}

calcteams-players_example :
    let ts = calcteams crowd in
    All (λ t. t.score ≡ players_of t.team crowd) ts
    × ((x : Name) → (has_team ts x ≡ true) ⊎ (players_of x crowd ≡ 0))
    × All (λ t. (last_team ts).score ≤ t.score) ts
calcteams-players_example = calcteams-players crowd
