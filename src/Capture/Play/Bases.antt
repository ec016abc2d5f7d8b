-- ===== src/Capture/Play/Bases.antt =====
-- The bases stay valid under the moves of the players.
use mathlib.Core.Bool.{not}
use spaghettimod.Prelude.{
  ℕ, ◌<◌, ◌≡◌, Bool, true, ◌&&◌, ◌||◌, List, [], ◌∷◌, arith, length, All, All-get_or, All-modify,
  if-both, leb,
}
use spaghettimod.Prelude.Loop.{for_each_keep}
use spaghettimod.Game.Names.{Name, same_name, same_name_iff, nonempty, max_str_len}
use spaghettimod.Game.Geometry.{Floats, Vec}
use spaghettimod.Game.World.{Client, Env, is_alive}
use spaghettimod.Capture.Base.{BaseInfo, new_base, valid, enter, leave, steal}
use spaghettimod.Capture.Base.Invariant.{IsValid, new_base-IsValid, enter-IsValid, leave-IsValid}
use spaghettimod.Capture.State.{Capture, insidebase, change_base}
use spaghettimod.Capture.Play.{
  base_at, sendbaseinfo, enter_one, enter_team, stealbase, move_round, movebases,
}

module _ {F : Type 0} (fl : Floats F) (env : Env) where
  abbrev pub AllValid : Capture F → Type 0
  AllValid s = All IsValid s.bases

  -- A change of one base that keeps it valid.
  pub change_base-AllValid :
      (i : ℕ) (f : BaseInfo F → BaseInfo F) (s : Capture F)
      → (IsValid (base_at fl env s i) → IsValid (f (base_at fl env s i)))
      → AllValid s
      → AllValid (change_base i f s)
  change_base-AllValid i f s keep all =
      All-modify IsValid s.bases i f (new_base fl)
        (keep (All-get_or IsValid s.bases i (new_base fl) (new_base-IsValid fl) all)) all

  enter_one-IsValid :
      (team : Name) (c : Client F) (b : BaseInfo F)
      → nonempty team ≡ true
      → length team < max_str_len
      → IsValid b
      → IsValid (enter_one fl env team c b)
  unfolding enter_one
  enter_one-IsValid team c b n h v =
      if-both IsValid
        (is_alive c.life && nonempty c.team && same_name c.team team && insidebase fl b c.o)
        (enter c.team b).1 b
        (λ inside.
          let same : c.team ≡ team = (same_name_iff c.team team).0 (ground (arith, inside)) in
          enter-IsValid c.team b (rw same n) (rw same h) v)
        (λ out. v)

  enter_team-IsValid :
      (team : Name) (cs : List (Client F)) (b : BaseInfo F)
      → nonempty team ≡ true
      → length team < max_str_len
      → IsValid b
      → IsValid (enter_team fl env team cs b)
  unfolding enter_team
  enter_team-IsValid team [] b n h v = v
  enter_team-IsValid team (c ∷ cs) b n h v =
      enter_team-IsValid team cs (enter_one fl env team c b) n h (enter_one-IsValid team c b n h v)

  sent-AllValid : (i : ℕ) (s : Capture F) → AllValid s → AllValid (sendbaseinfo fl env i s)
  unfolding sendbaseinfo
  sent-AllValid i s all = all

  move_round-AllValid :
      (team : Name) (p : Vec F) (a : Bool) (q : Vec F) (c : Bool) (i : ℕ) (s : Capture F)
      → nonempty team ≡ true
      → length team < max_str_len
      → AllValid s
      → AllValid (move_round fl env team p a q c i s)
  unfolding move_round stealbase
  move_round-AllValid team p a q c i s n h all =
      if-both AllValid (not (valid b)) s _ (λ e. all)
        (λ e.
          if-both AllValid (leaves && not enters) _ _
            (λ e.
              if-both AllValid (leave team b).0 _ left (λ e. sent-AllValid i left left_ok)
                (λ e. left_ok))
            (λ e.
              if-both AllValid (enters && not leaves) _ _
                (λ e.
                  if-both AllValid (enter team b).0 _ entered
                    (λ e. sent-AllValid i entered entered_ok) (λ e. entered_ok))
                (λ e.
                  if-both AllValid (leaves && enters && steal team b) _ s
                    (λ e. sent-AllValid i stolen stolen_ok) (λ e. all))))
    where
      b : BaseInfo F
      b = base_at fl env s i

      leaves : Bool
      leaves = not a && insidebase fl b p

      enters : Bool
      enters = not c && insidebase fl b q

      left : Capture F
      left = change_base i (λ d. (leave team d).1) s

      entered : Capture F
      entered = change_base i (λ d. (enter team d).1) s

      stolen : Capture F
      stolen = change_base i (enter_team fl env team s.world.clients) s

      left_ok : AllValid left
      left_ok = change_base-AllValid i (λ d. (leave team d).1) s (leave-IsValid team b n) all

      entered_ok : AllValid entered
      entered_ok = change_base-AllValid i (λ d. (enter team d).1) s (enter-IsValid team b n h) all

      stolen_ok : AllValid stolen
      stolen_ok =
          change_base-AllValid i (enter_team fl env team s.world.clients) s
            (enter_team-IsValid team s.world.clients b n h) all

  -- Wherever a player of a team moves, in and out of bases, the bases stay valid: a base without an
  -- enemy has nothing converted, a conversion that is under way is not complete, and the enemy is
  -- not the owner. The name of the team fits a string of the program.
  pub movebases-AllValid :
      (team : Name) (oldpos : Vec F) (oldclip : Bool) (newpos : Vec F) (newclip : Bool)
      (s : Capture F)
      → length team < max_str_len
      → AllValid s
      → AllValid (movebases fl env team oldpos oldclip newpos newclip s)
  unfolding movebases
  movebases-AllValid team p a q c s h all =
      if-both AllValid (not (nonempty team) || leb s.world.gamelimit env.gamemillis) s _ (λ e. all)
        (λ e.
          for_each_keep AllValid (move_round fl env team p a q c)
            (λ i t. move_round-AllValid team p a q c i t (ground (arith, e)) h) (length s.bases) s
            all)
