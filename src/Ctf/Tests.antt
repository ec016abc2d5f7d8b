-- ===== src/Ctf/Tests.antt =====
-- The theorems of the flag modes at concrete values.
use spaghettimod.Prelude.{ℕ, ◌*◌, ◌≡◌, ◌≢◌, refl, ap, arith, false, true, List, [], ◌∷◌, none, All}
use spaghettimod.Prelude.Int.{ℤ, pos}
use spaghettimod.Game.Modes.{m_hold, m_protect}
use spaghettimod.Game.Items.{ent_flag}
use spaghettimod.Game.World.{Entity}
use spaghettimod.Game.Samples.{whole, at, clock, good_player, evil_player, two_players}
use spaghettimod.Ctf.Flag.{Flag, new_flag}
use spaghettimod.Game.Names.{same_name}
use spaghettimod.Ctf.State.{Ctf, ctfteamflag}
use spaghettimod.Ctf.State.Carry.{carried, OneEach}
use spaghettimod.Ctf.Play.{takeflag, dropflag, flag_at}
use spaghettimod.Ctf.Play.Take.One.{takeflag-OneEach}
use spaghettimod.Ctf.Play.Take.Race.{takeflag_race}
use spaghettimod.Ctf.Play.Drop.{dropflag-carried}
use spaghettimod.Ctf.Setup.{ServModeItem, setup, parseitems}
use spaghettimod.Ctf.Setup.Teams.{AtHome, setup-AtHome, parseitems_untakeable}

-- The flags of the good and the evil team; the evil player carries the first.
abbrev good_flag : Flag ℤ
good_flag = record (new_flag whole) { id = pos 0; team = pos 1; owner = pos 2; owntime = 40000 }

abbrev evil_flag : Flag ℤ
evil_flag = record (new_flag whole) { id = pos 1; team = pos 2; spawnloc = at 100 }

abbrev game : Ctf ℤ
game = record {
  world = two_players;
  flags = good_flag ∷ evil_flag ∷ [];
  holdspawns = [];
  score1 = pos 0;
  score2 = pos 0;
  notgotflags = false;
}

game-OneEach : OneEach game.flags
game-OneEach n = ground arith

-- The mode 11 is ctf, 13 is protect, 15 is hold.
takeflag-OneEach_example :
    OneEach (takeflag whole (clock (pos 11)) good_player (pos 1) (pos 0) game).flags
takeflag-OneEach_example =
    takeflag-OneEach whole (clock (pos 11)) good_player (pos 1) (pos 0) game game-OneEach

taken : takeflag whole (clock (pos 11)) good_player (pos 1) (pos 0) game ≢ game
unfolding takeflag m_hold m_protect ctfteamflag same_name
taken e =
    let newer : 1 ≡ 0 = ap (λ t. (flag_at whole (clock (pos 11)) t 1).version) e in
    absurd (omega (arith, newer))

takeflag_race_example :
    takeflag whole
      (clock (pos 11))
      evil_player
      (pos 1)
      (pos 0)
      (takeflag whole (clock (pos 11)) good_player (pos 1) (pos 0) game)
    ≡ takeflag whole (clock (pos 11)) good_player (pos 1) (pos 0) game
takeflag_race_example =
    takeflag_race whole (clock (pos 11)) good_player evil_player (pos 1) (pos 0) game taken

other_client : (n : ℕ) → n ≡ 1 → 2 ≢ n
other_client n e d = absurd (omega (arith, e, d))

dropflag-carried_example :
    (carried (pos 2) (dropflag whole (clock (pos 11)) evil_player none game).flags ≡ 0)
    × (carried (pos 1) (dropflag whole (clock (pos 11)) evil_player none game).flags
        ≡ carried (pos 1) game.flags)
dropflag-carried_example =
    dropflag-carried whole (clock (pos 11)) evil_player none game 2 1 refl refl
      (other_client 1 refl)

-- A map with the flags of both teams.
abbrev flag_entity : ℕ → Entity ℤ
flag_entity team = record { type = ent_flag; attr1 = pos 0; attr2 = pos team; o = at (50 * team) }

not_hold : m_hold (pos 11) ≡ false
unfolding m_hold
not_hold = refl

not_protect : m_protect (pos 11) ≡ false
unfolding m_protect
not_protect = refl

setup-AtHome_example :
    All
      (AtHome whole (clock (pos 11)))
      (setup whole (clock (pos 11)) false (flag_entity 1 ∷ flag_entity 2 ∷ []) game).flags
setup-AtHome_example =
    setup-AtHome whole (clock (pos 11)) false (flag_entity 1 ∷ flag_entity 2 ∷ []) game not_hold

-- A server without the map's entities, and the list that a client sends.
abbrev waiting : Ctf ℤ
waiting = record game { flags = []; notgotflags = true }

abbrev listed : List (ServModeItem ℤ)
listed = record { tag = pos 1; o = at 0 } ∷ record { tag = pos 2; o = at 100 } ∷ []

parseitems_untakeable_example :
    takeflag whole
      (clock (pos 11))
      good_player
      (pos 1)
      (pos 1)
      (parseitems whole (clock (pos 11)) listed true waiting)
    ≡ parseitems whole (clock (pos 11)) listed true waiting
parseitems_untakeable_example =
    parseitems_untakeable whole (clock (pos 11)) listed waiting good_player (pos 1) (pos 1) not_hold
      not_protect refl
