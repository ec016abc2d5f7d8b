-- ===== src/Capture/Tests.antt =====
-- The theorems of the capture modes at concrete values.
use spaghettimod.Prelude.{◌≡◌, ◌↔◌, refl, arith, false, [], ◌∷◌, none, some}
use spaghettimod.Prelude.Int.{ℤ, pos, negsuc}
use spaghettimod.Game.World.{send, Msg}
use spaghettimod.Game.Names.{name_of, same_name}
use spaghettimod.Game.Samples.{whole, at, clock, two_players}
use spaghettimod.Capture.Base.{BaseInfo, new_base, valid}
use spaghettimod.Capture.Base.Invariant.{IsValid}
use spaghettimod.Capture.State.{Capture, getteamscore, addbase, group_type}
use spaghettimod.Capture.State.Groups.{Grouped, addbase-Grouped}
use spaghettimod.Capture.Play.{movebases}
use spaghettimod.Capture.Play.Bases.{AllValid, movebases-AllValid}
use spaghettimod.Capture.Clock.{update, endcheck, only_owner}
use spaghettimod.Capture.Clock.Bases.{update-AllValid}
use spaghettimod.Capture.Clock.Winner.{OwnsAll, Ends, only_owner-OwnsAll, endcheck_wins}

-- A base of the good team that an evil player converts, and a base of the good team.
abbrev challenged : BaseInfo ℤ
challenged = record (new_base whole) {
  ammotype = 1;
  owner = name_of "good";
  enemy = name_of "evil";
  enemies = 1;
  converted = pos 5;
  capturetime = pos 3;
}

abbrev quiet : BaseInfo ℤ
quiet = record (new_base whole) {
  o = at 200;
  ammotype = 2;
  owner = name_of "good";
  capturetime = pos 7;
}

abbrev game : Capture ℤ
game = record {
  world = two_players;
  bases = challenged ∷ quiet ∷ [];
  scores = [];
  captures = 0;
  notgotbases = false;
}

challenged-IsValid : IsValid challenged
unfolding same_name
challenged-IsValid = record {
  no_enemy = λ e. absurd (cc);
  started = refl;
  unfinished = refl;
  rivals = λ e. refl;
  short = omega arith;
}

quiet-IsValid : IsValid quiet
unfolding same_name
quiet-IsValid = record {
  no_enemy = λ e. (refl, refl);
  started = refl;
  unfinished = refl;
  rivals = λ e. refl;
  short = omega arith;
}

game-AllValid : AllValid whole (clock (pos 9)) game
game-AllValid = (challenged-IsValid, (quiet-IsValid, tt))

-- The mode 9 is capture.
movebases-AllValid_example :
    AllValid whole
      (clock (pos 9))
      (movebases whole (clock (pos 9)) (name_of "evil") (at 0) false (at 200) false game)
movebases-AllValid_example =
    movebases-AllValid whole (clock (pos 9)) (name_of "evil") (at 0) false (at 200) false game
      (omega arith) game-AllValid

update-AllValid_example : AllValid whole (clock (pos 9)) (update whole (clock (pos 9)) game)
update-AllValid_example = update-AllValid whole (clock (pos 9)) game game-AllValid

only_owner-OwnsAll_example :
    (only_owner whole (clock (pos 9)) none game.bases ≡ some (name_of "good"))
    ↔ OwnsAll (name_of "good") game.bases
only_owner-OwnsAll_example = only_owner-OwnsAll whole (clock (pos 9)) (name_of "good") game.bases

game_owned : OwnsAll (name_of "good") game.bases
unfolding valid
game_owned = (((λ v. (refl, refl)), ((λ v. (refl, refl)), tt)), refl)

endcheck_wins_example :
    (getteamscore (endcheck whole (clock (pos 9)) game).scores (name_of "good") ≡ pos 10000)
    × Ends whole
        (clock (pos 9))
        (send (Msg.base_score (negsuc 0) (name_of "good") (pos 10000)) game.world)
        (endcheck whole (clock (pos 9)) game).world
endcheck_wins_example =
    endcheck_wins whole (clock (pos 9)) (name_of "good") game (omega arith) game_owned

-- Both bases of a group have the type 3.
abbrev grouped_base : BaseInfo ℤ
grouped_base = record (new_base whole) { ammogroup = negsuc 0; ammotype = 3 }

abbrev group_game : Capture ℤ
group_game = record game { bases = grouped_base ∷ grouped_base ∷ [] }

group_game-Grouped : Grouped group_game.bases
unfolding group_type
group_game-Grouped = ((λ e. refl), ((λ e. refl), tt))

addbase-Grouped_example : Grouped (addbase whole (negsuc 0) (at 300) group_game).bases
addbase-Grouped_example = addbase-Grouped whole (negsuc 0) (at 300) group_game group_game-Grouped
