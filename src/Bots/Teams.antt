-- ===== src/Bots/Teams.antt =====
-- The balance of teams (fpsgame/aiman.h, with `teamscore` of fpsgame/game.h). Scores count players.
pub mod Ends
pub mod Credit
pub mod Order
pub mod Count
use mathlib.Core.Bool.{not}
use spaghettimod.Prelude.{
  ℕ, zero, suc, ◌+◌, ◌-◌, Bool, true, false, ◌&&◌, ◌||◌, List, [], ◌∷◌, ◌++◌, Option, none, some,
  ltb, leb, ◌==◌, if◌then◌else◌, length, get_or, set, take, drop, modify,
}
use spaghettimod.Prelude.Int.{ℤ, pos}
use spaghettimod.Game.Names.{Name, name_of, same_name, nonempty, copystring}
use spaghettimod.Game.World.{is_spectator, is_alive}
use spaghettimod.Sort.{quicksort}
use spaghettimod.Bots.Member.{Member, Note, set_team, Host, Bots, find, tell, change_member}

pub record TeamScore : Type 0 where
  pub team : Name
  pub score : ℕ

abbrev pub no_team : TeamScore
no_team = record { team = []; score = 0 }

-- `strcmp(a, b) < 0`
unfoldable pub name_before : Name → Name → Bool
name_before [] [] = false
name_before [] (y ∷ ys) = true
name_before (x ∷ xs) [] = false
name_before (x ∷ xs) (y ∷ ys) =
    let rest = name_before xs ys in if ltb x y then true else if ltb y x then false else rest

-- `teamscore::compare`
unfoldable pub compare : TeamScore → TeamScore → Bool
compare x y =
    if ltb y.score x.score
    then true
    else if ltb x.score y.score
    then false
    else name_before x.team y.team

abbrev pub or_else : {A : Type 0} → Option A → A → A
or_else none x = x
or_else (some y) x = y

-- `teams.sort(teamscore::compare)`. The fuel is more than the number of teams.
unfoldable pub sort_teams : List TeamScore → List TeamScore
sort_teams ts = or_else (quicksort compare no_team (suc (length ts)) ts) ts

-- `teams.htfind(team) >= 0`
unfoldable pub has_team : List TeamScore → Name → Bool
has_team [] team = false
has_team (t ∷ ts) team = same_name t.team team || has_team ts team

-- One more player of the team.
unfoldable pub count_player : Name → List TeamScore → List TeamScore
count_player team [] = record { team = team; score = 1 } ∷ []
count_player team (t ∷ ts) =
    let rest = count_player team ts in
    if same_name t.team team then record t { score = t.score + 1 } ∷ ts else t ∷ rest

unfoldable pub count_teams : List Member → List TeamScore → List TeamScore
count_teams [] ts = ts
count_teams (ci ∷ cs) ts =
    if is_spectator ci.life || not (nonempty ci.team)
    then count_teams cs ts
    else count_teams cs (count_player ci.team ts)

abbrev pub add_default : Name → List TeamScore → List TeamScore
add_default team ts =
    if has_team ts team then ts else ts ++ (record { team = team; score = 0 } ∷ [])

-- From no teams.
unfoldable pub calcteams : List Member → List TeamScore
calcteams cs =
    let ts = sort_teams (count_teams cs []) in
    if ltb (length ts) 2 then add_default (name_of "evil") (add_default (name_of "good") ts) else ts

abbrev pub first_team : List TeamScore → TeamScore
first_team ts = get_or ts 0 no_team

abbrev pub last_team : List TeamScore → TeamScore
last_team ts = get_or ts (length ts - 1) no_team

unfoldable pub chooseteam : List Member → Name
chooseteam cs = (last_team (calcteams cs)).team

-- `MAXTEAMLEN`
abbrev pub maxteamlen : ℕ
maxteamlen = 4

-- The inner loop of `balanceteams`, at the indices below `j`.
unfoldable pub bubble : ℕ → List TeamScore → List TeamScore
bubble zero ts = ts
bubble (suc j) ts =
    let upper = get_or ts j no_team in
    let lower = get_or ts (suc j) no_team in
    let rest = bubble j (set (set ts j lower) (suc j) upper) in
    if leb lower.score upper.score then ts else rest

-- `vector::removeunordered`
abbrev pub removeunordered : List ℤ → ℕ → List ℤ
removeunordered xs i = let last = length xs - 1 in take last (set xs i (get_or xs last (pos 0)))

abbrev pub if_in_team : Name → ℕ → Option Member → Option (ℕ × Member) → Option (ℕ × Member)
if_in_team team i none rest = rest
if_in_team team i (some bot) rest = if same_name bot.team team then some (i, bot) else rest

-- The place of the first bot of a team.
unfoldable pub bot_of_team : List Member → Name → ℕ → List ℤ → Option (ℕ × Member)
bot_of_team cs team i [] = none
bot_of_team cs team i (b ∷ bs) = if_in_team team i (find cs b) (bot_of_team cs team (suc i) bs)

-- The bots of the vector `bots`.
unfoldable pub all_bots : List (Option ℤ) → List ℤ
all_bots [] = []
all_bots (none ∷ slots) = all_bots slots
all_bots (some b ∷ slots) = b ∷ all_bots slots

-- What the loop of `balanceteams` works on.
pub record Balance (M : Type 0) : Type 0 where
  pub teams : List TeamScore
  pub reassign : List ℤ
  pub state : Bots M

module _ {M : Type 0} (host : Host M) where
  -- The bot changes to a team.
  unfoldable pub put_in_team : Member → Name → Bots M → Bots M
  put_in_team bot team s =
      let shifted =
        if is_alive bot.life
        then record s { mode = host.changeteam bot.clientnum bot.team team s.mode }
        else s in
      let short = copystring (maxteamlen + 1) team in
      tell (set_team bot.clientnum short)
        (change_member shifted bot.clientnum (λ c. record c { team = short }))

  -- The teams after a move from the first to the last of them.
  unfoldable pub credit : List TeamScore → List TeamScore
  credit ts =
      let taken = modify ts 0 (λ t. record t { score = t.score - 1 }) in
      let given = modify taken (length ts - 1) (λ t. record t { score = t.score + 1 }) in
      bubble (length ts - 1) given

  -- `t` is the place of the last team, which after the inner loop may hold another team.
  abbrev pub move_bot : Balance M → Option (ℕ × Member) → Balance M
  move_bot b none = record b { teams = drop 1 b.teams }
  move_bot b (some (i, bot)) =
      let ts = credit b.teams in
      record {
        teams = ts;
        reassign = removeunordered b.reassign i;
        state = put_in_team bot (last_team ts).team b.state;
      }

  unfoldable pub balance_round : Balance M → Balance M
  balance_round b = move_bot b (bot_of_team b.state.clients (first_team b.teams).team 0 b.reassign)

  abbrev pub some_left : {A : Type 0} → List A → Bool
  some_left [] = false
  some_left (x ∷ xs) = true

  abbrev pub unbalanced : Balance M → Bool
  unbalanced b =
      some_left b.reassign
      && some_left b.teams
      && ltb ((last_team b.teams).score + 1) (first_team b.teams).score

  -- The loop, with fuel for each test; `none` means that the fuel ran out.
  unfoldable pub balance_loop : ℕ → Balance M → Option (Balance M)
  balance_loop zero b = none
  balance_loop (suc fuel) b =
      let rest = balance_loop fuel (balance_round b) in if unbalanced b then rest else some b

  unfoldable pub balanceteams : Bots M → Option (Bots M)
  balanceteams s =
      let teams = calcteams s.clients in
      let reassign = all_bots s.slots in
      elim (balance_loop (length reassign + length teams + 1)
        (record { teams = teams; reassign = reassign; state = s })) [
          | none ↦ none
          | some b ↦ some b.state
        ]
