-- ===== src/Bots/Teams/Order.antt =====
-- The order of the teams, and the team that a new bot gets.
use mathlib.Core.Path.{subst}
use mathlib.Core.List.{Perm}
use spaghettimod.Prelude.{
  suc, ◌-◌, ◌≤◌, ◌≡◌, refl, sym, ap, ◌∙◌, true, false, List, [], ◌∷◌, ◌++◌, arith, length, get_or,
  All, if-both, ltb,
}
use spaghettimod.Game.Names.{Name, name_of}
use spaghettimod.Bots.Member.{Member}
use spaghettimod.Sort.Insertion.{StrictOrder, IsSorted}
use spaghettimod.Sort.Quick.{quicksort-Sorts}
use spaghettimod.Bots.Teams.{
  TeamScore, or_else, no_team, name_before, compare, sort_teams, has_team, add_default, count_teams,
  calcteams, last_team,
}

name_before-asym : (a b : Name) → name_before a b ≡ true → name_before b a ≡ false
unfolding name_before
name_before-asym [] [] h = refl
name_before-asym [] (y ∷ b) h = refl
name_before-asym (x ∷ a) [] h = absurd (cc)
name_before-asym (x ∷ a) (y ∷ b) h = ground (arith, name_before-asym a b)

name_before-weak :
    (a b c : Name) → name_before a b ≡ false → name_before b c ≡ false → name_before a c ≡ false
unfolding name_before
name_before-weak [] [] c h k = k
name_before-weak [] (y ∷ b) c h k = absurd (cc)
name_before-weak (x ∷ a) b [] h k = refl
name_before-weak (x ∷ a) [] (z ∷ c) h k = absurd (cc)
name_before-weak (x ∷ a) (y ∷ b) (z ∷ c) h k = ground (arith, name_before-weak a b c)

compare-StrictOrder : StrictOrder compare
unfolding compare
compare-StrictOrder = record {
  asym = λ x y h. ground (arith, name_before-asym x.team y.team);
  weak = λ x y z h k. ground (arith, name_before-weak x.team y.team z.team);
}

compare-score : (x y : TeamScore) → compare x y ≡ false → x.score ≤ y.score
unfolding compare
compare-score x y h = ground arith

-- The sorted teams are the teams, in order.
pub sort_teams-Sorts :
    (ts : List TeamScore) → IsSorted compare (sort_teams ts) × Perm (sort_teams ts) ts
unfolding sort_teams
sort_teams-Sorts ts =
    let (ys, ends, sorted, same) =
      quicksort-Sorts compare no_team compare-StrictOrder (suc (length ts)) ts (omega arith) in
    subst (λ o. IsSorted compare (or_else o ts) × Perm (or_else o ts) ts) (sym ends) (sorted, same)

-- Every team has at least the score of the last.
abbrev LastLeast : List TeamScore → Type 0
LastLeast ts = All (λ t. (last_team ts).score ≤ t.score) ts

last_team-cons :
    (t u : TeamScore) (ts : List TeamScore) → last_team (t ∷ u ∷ ts) ≡ last_team (u ∷ ts)
last_team-cons t u ts =
    let next : suc (suc (length ts)) - 1 ≡ suc (suc (length ts) - 1) = omega arith in
    ap (λ k. get_or (t ∷ u ∷ ts) k no_team) next

last_team-append : (ts : List TeamScore) (t : TeamScore) → last_team (ts ++ (t ∷ [])) ≡ t
last_team-append [] t = refl
last_team-append (u ∷ []) t = refl
last_team-append (u ∷ v ∷ ts) t = last_team-cons u v (ts ++ (t ∷ [])) ∙ last_team-append (v ∷ ts) t

-- A team without players is the least.
All-zero : (ts : List TeamScore) → All (λ t. 0 ≤ t.score) ts
All-zero [] = tt
All-zero (t ∷ ts) = (omega arith, All-zero ts)

LastLeast-append :
    (ts : List TeamScore) (team : Name) → LastLeast (ts ++ (record { team = team; score = 0 } ∷ []))
LastLeast-append ts team =
    let new : TeamScore = record { team = team; score = 0 } in
    rw (last_team-append ts new) (All-zero (ts ++ (new ∷ [])))

LastLeast-cons :
    (t : TeamScore) (ts : List TeamScore)
    → All (λ u. compare u t ≡ false) ts
    → LastLeast ts
    → LastLeast (t ∷ ts)
LastLeast-cons t [] before h = (omega arith, tt)
LastLeast-cons t (u ∷ ts) before h =
    let below = compare-score u t before.0 in
    subst (λ (l : TeamScore). All (λ x. l.score ≤ x.score) (t ∷ u ∷ ts))
      (sym (last_team-cons t u ts)) (omega (arith, below, h.0), h)

sorted-LastLeast : (ts : List TeamScore) → IsSorted compare ts → LastLeast ts
sorted-LastLeast [] s = tt
sorted-LastLeast (t ∷ ts) s = LastLeast-cons t ts s.0 (sorted-LastLeast ts s.1)

add_default-LastLeast :
    (team : Name) (ts : List TeamScore) → LastLeast ts → LastLeast (add_default team ts)
add_default-LastLeast team ts h =
    if-both LastLeast (has_team ts team) ts (ts ++ (record { team = team; score = 0 } ∷ []))
      (λ e. h) (λ e. LastLeast-append ts team)

-- The last team of calcteams, which is the one that chooseteam names, has the least score.
pub calcteams-LastLeast :
    (cs : List Member) → All (λ t. (last_team (calcteams cs)).score ≤ t.score) (calcteams cs)
unfolding calcteams
calcteams-LastLeast cs =
    let ts = sort_teams (count_teams cs []) in
    let sorted = sorted-LastLeast ts (sort_teams-Sorts (count_teams cs [])).0 in
    if-both LastLeast (ltb (length ts) 2)
      (add_default (name_of "evil") (add_default (name_of "good") ts)) ts
      (λ e.
        add_default-LastLeast (name_of "evil") _ (add_default-LastLeast (name_of "good") ts sorted))
      (λ e. sorted)
