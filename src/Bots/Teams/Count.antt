-- ===== src/Bots/Teams/Count.antt =====
-- What `calcteams` counts: the players of each team.
use mathlib.Core.Bool.{not}
use mathlib.Core.Path.{subst, fun_ext}
use mathlib.Core.List.{Perm}
use spaghettimod.Prelude.{
  ℕ, suc, ◌+◌, ◌≤◌, ◌≡◌, ◌⊎◌, inl, inr, refl, sym, ap, ◌∙◌, Bool, true, false, ◌&&◌, ◌||◌, List, [],
  ◌∷◌, ◌++◌, arith, length, All, All-append, if-both, ltb, ◌==◌, if◌then◌else◌, Bool-cases,
}
use spaghettimod.Game.Names.{Name, name_of, same_name, same_name_iff, nonempty}
use spaghettimod.Game.World.{is_spectator}
use spaghettimod.Bots.Member.{Member}
use spaghettimod.Sort.Quick.{any, All-any, any-perm, All-perm}
use spaghettimod.Bots.Teams.{
  TeamScore, sort_teams, has_team, add_default, count_player, count_teams, calcteams, last_team,
}
use spaghettimod.Bots.Teams.Order.{sort_teams-Sorts, calcteams-LastLeast}

-- The clients of a team that play.
unfoldable pub players_of : Name → List Member → ℕ
players_of team [] = 0
players_of team (ci ∷ cs) =
    let rest = players_of team cs in
    if not (is_spectator ci.life) && nonempty ci.team && same_name ci.team team
    then suc rest
    else rest

-- One more for a team.
abbrev plus_one : Name → (Name → ℕ) → Name → ℕ
plus_one team f x = if same_name team x then f x + 1 else f x

has_team-count_player :
    (team x : Name) (ts : List TeamScore)
    → has_team (count_player team ts) x ≡ has_team ts x || same_name team x
unfolding has_team count_player
has_team-count_player team x [] = ground arith
has_team-count_player team x (t ∷ ts) = ground (
  arith,
  has_team-count_player team x ts,
  same_name_iff t.team team,
  same_name_iff t.team x,
  same_name_iff team x,
)

has_team-append :
    (ts : List TeamScore) (t : TeamScore) (x : Name)
    → has_team (ts ++ (t ∷ [])) x ≡ has_team ts x || same_name t.team x
unfolding has_team
has_team-append [] t x = ground arith
has_team-append (u ∷ ts) t x = ground (arith, has_team-append ts t x)

-- No two entries of the same team.
unfoldable Apart : List TeamScore → Type 0
Apart [] = Unit
Apart (t ∷ ts) = (has_team ts t.team ≡ false) × Apart ts

Apart-none : Apart []
unfolding Apart
Apart-none = tt

Apart-count_player : (team : Name) (ts : List TeamScore) → Apart ts → Apart (count_player team ts)
unfolding Apart count_player has_team
Apart-count_player team [] h = (refl, tt)
Apart-count_player team (t ∷ ts) h =
    if-both Apart (same_name t.team team) (record t { score = t.score + 1 } ∷ ts)
      (t ∷ count_player team ts) (λ e. h)
      (λ e. (
        has_team-count_player team t.team ts
            ∙ ground (arith, h.0, same_name_iff t.team team, same_name_iff team t.team),
        Apart-count_player team ts h.1,
      ))

-- Every entry has the number of its team.
abbrev Scores : (Name → ℕ) → List TeamScore → Type 0
Scores f = All (λ t. t.score ≡ f t.team)

Scores-kept :
    (team : Name) (f : Name → ℕ) (ts : List TeamScore)
    → has_team ts team ≡ false
    → Scores f ts
    → Scores (plus_one team f) ts
unfolding has_team
Scores-kept team f [] other all = tt
Scores-kept team f (t ∷ ts) other all = (
  ground (arith, all.0, same_name_iff t.team team, same_name_iff team t.team),
  Scores-kept team f ts (ground arith) all.1,
)

-- A missing team has the number 0.
abbrev Missing : (Name → ℕ) → List TeamScore → Type 0
Missing f ts = (x : Name) → has_team ts x ≡ false → f x ≡ 0

Scores-count_player :
    (team : Name) (f : Name → ℕ) (ts : List TeamScore)
    → Apart ts
    → Scores f ts
    → (has_team ts team ≡ false → f team ≡ 0)
    → Scores (plus_one team f) (count_player team ts)
unfolding Apart count_player has_team
Scores-count_player team f [] apart all missing =
    (ground (arith, missing refl, same_name_iff team team), tt)
Scores-count_player team f (t ∷ ts) apart all missing =
    if-both (Scores (plus_one team f)) (same_name t.team team)
      (record t { score = t.score + 1 } ∷ ts) (t ∷ count_player team ts)
      (λ e.
        let same : t.team ≡ team = (same_name_iff t.team team).0 e in
        (
          ground (arith, all.0, same, same_name_iff team t.team),
          Scores-kept team f ts (ap (has_team ts) (sym same) ∙ apart.0) all.1,
        ))
      (λ e. (
        ground (arith, all.0, same_name_iff team t.team, same_name_iff t.team team),
        Scores-count_player team f ts apart.1 all.1 (λ gone. missing (ground (arith, e, gone))),
      ))

record Counted (f : Name → ℕ) (ts : List TeamScore) : Type 0 where
  scores : Scores f ts
  missing : Missing f ts

Counted-count_player :
    (team : Name) (f : Name → ℕ) (ts : List TeamScore)
    → Apart ts
    → Counted f ts
    → Counted (plus_one team f) (count_player team ts)
Counted-count_player team f ts apart h = record {
  scores = Scores-count_player team f ts apart h.scores (h.missing team);
  missing = λ x gone. ground (arith, has_team-count_player team x ts, gone, h.missing x);
}

count_teams-Counted :
    (cs : List Member) (f : Name → ℕ) (ts : List TeamScore)
    → Apart ts
    → Counted f ts
    → Counted (λ x. players_of x cs + f x) (count_teams cs ts)
unfolding count_teams players_of
count_teams-Counted [] f ts apart h = subst (λ g. Counted g ts) (fun_ext λ x. omega arith) h
count_teams-Counted (ci ∷ cs) f ts apart h =
    let idle = is_spectator ci.life || not (nonempty ci.team) in
    if-both (Counted (λ x. players_of x (ci ∷ cs) + f x)) idle (count_teams cs ts)
      (count_teams cs (count_player ci.team ts))
      (λ e.
        subst (λ g. Counted g (count_teams cs ts)) (fun_ext λ x. ground arith)
          (count_teams-Counted cs f ts apart h))
      (λ e.
        subst (λ g. Counted g (count_teams cs (count_player ci.team ts)))
          (fun_ext λ x. ground arith)
          (count_teams-Counted cs (plus_one ci.team f) (count_player ci.team ts)
            (Apart-count_player ci.team ts apart) (Counted-count_player ci.team f ts apart h)))

has_team-any : (ts : List TeamScore) (x : Name) → has_team ts x ≡ any (λ t. same_name t.team x) ts
unfolding has_team any
has_team-any [] x = refl
has_team-any (t ∷ ts) x = ap (λ r. same_name t.team x || r) (has_team-any ts x)

-- An entry that has not the number of its team.
abbrev wrong : (Name → ℕ) → TeamScore → Bool
wrong f t = not (t.score == f t.team)

Scores→ : (f : Name → ℕ) (ts : List TeamScore) → Scores f ts → All (λ t. wrong f t ≡ false) ts
Scores→ f [] all = tt
Scores→ f (t ∷ ts) all = (ground (arith, all.0), Scores→ f ts all.1)

Scores← : (f : Name → ℕ) (ts : List TeamScore) → All (λ t. wrong f t ≡ false) ts → Scores f ts
Scores← f [] all = tt
Scores← f (t ∷ ts) all = (ground (arith, all.0), Scores← f ts all.1)

Counted-perm : (f : Name → ℕ) (ts us : List TeamScore) → Perm us ts → Counted f ts → Counted f us
Counted-perm f ts us same h = record {
  scores =
      Scores← f us (All-perm (wrong f) us ts same (All-any (wrong f) ts (Scores→ f ts h.scores)));
  missing = λ x gone. h.missing x (
      has_team-any ts x
      ∙ sym (any-perm (λ t. same_name t.team x) us ts same)
      ∙ sym (has_team-any us x)
      ∙ gone);
}

add_default-Counted :
    (team : Name) (f : Name → ℕ) (ts : List TeamScore)
    → Counted f ts
    → Counted f (add_default team ts)
add_default-Counted team f ts h =
    let new : TeamScore = record { team = team; score = 0 } in
    if-both (Counted f) (has_team ts team) ts (ts ++ (new ∷ [])) (λ e. h)
      (λ e. record {
        scores =
            All-append (λ t. t.score ≡ f t.team) ts (new ∷ []) h.scores
              (sym (h.missing team e), tt);
        missing = λ x gone. h.missing x (ground (arith, has_team-append ts new x, gone));
      })

all-Counted : (cs : List Member) → Counted (λ x. players_of x cs) (calcteams cs)
unfolding calcteams
all-Counted cs =
    let f : Name → ℕ = λ x. players_of x cs in
    let none_yet : Counted (λ x. 0) [] = record { scores = tt; missing = λ x gone. refl } in
    let counted : Counted f (count_teams cs []) =
      subst (λ g. Counted g (count_teams cs [])) (fun_ext λ x. omega arith)
        (count_teams-Counted cs (λ x. 0) [] Apart-none none_yet) in
    let sorted =
      Counted-perm f (count_teams cs []) (sort_teams (count_teams cs []))
        (sort_teams-Sorts (count_teams cs [])).1 counted in
    let ts = sort_teams (count_teams cs []) in
    if-both (Counted f) (ltb (length ts) 2)
      (add_default (name_of "evil") (add_default (name_of "good") ts)) ts
      (λ e.
        add_default-Counted (name_of "evil") f _ (add_default-Counted (name_of "good") f ts sorted))
      (λ e. sorted)

-- The teams of calcteams have the numbers of their players, a team that is not among them has no
-- players, and the last of them, which is the one that chooseteam names, has the fewest.
pub calcteams-players :
    (cs : List Member)
    → let ts = calcteams cs in
      All (λ t. t.score ≡ players_of t.team cs) ts
      × ((x : Name) → (has_team ts x ≡ true) ⊎ (players_of x cs ≡ 0))
      × All (λ t. (last_team ts).score ≤ t.score) ts
calcteams-players cs =
    let counted = all-Counted cs in
    (
      counted.scores,
      (λ x. elim (Bool-cases (has_team (calcteams cs) x)) [
        | inl there ↦ inl there
        | inr gone ↦ inr (counted.missing x gone)
      ]),
      calcteams-LastLeast cs,
    )
