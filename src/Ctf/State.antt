-- ===== src/Ctf/State.antt =====
-- The state of `ctfservmode` and its small members.
pub mod Carry
use mathlib.Core.Bool.{not}
use spaghettimod.Prelude.{
  ℕ, zero, suc, ◌+◌, ◌-◌, ◌*◌, Bool, true, false, ◌&&◌, ◌||◌, List, [], ◌∷◌, ◌++◌, Option, none,
  some, ltb, leb, ◌==◌, if◌then◌else◌, length, get_or, modify, replicate,
}
use spaghettimod.Prelude.Int.{ℤ, pos, negsuc, eqb_ℤ, nonneg, ◌+ℤ◌}
use spaghettimod.Game.Names.{Name, name_of, same_name}
use spaghettimod.Game.Geometry.{Floats, Vec, inside_cylinder}
use spaghettimod.Game.World.{World, Client, Env, Msg}
use spaghettimod.Ctf.Flag
use spaghettimod.Ctf.Flag.{Flag}

-- `ctfteamflag`: 1 for good, 2 for evil, 0 for any other name.
unfoldable pub ctfteamflag : Name → ℕ
ctfteamflag s =
    if same_name s (name_of "good") then 1 else (if same_name s (name_of "evil") then 2 else 0)

-- `ctfflagteam` is not NULL.
abbrev pub has_flag_team : ℤ → Bool
has_flag_team i = eqb_ℤ i (pos 1) || eqb_ℤ i (pos 2)

-- `scores[0]` and `scores[1]` are the scores of teams 1 and 2.
pub record Ctf (F : Type 0) : Type 0 where
  pub world : World F
  pub flags : List (Flag F)
  pub holdspawns : List (Vec F)
  pub score1 : ℤ
  pub score2 : ℤ
  pub notgotflags : Bool

abbrev pub baseradius : ℕ
baseradius = 64

abbrev pub baseheight : ℕ
baseheight = 24

abbrev pub maxflags : ℕ
maxflags = 20

abbrev pub flaglimit : ℕ
flaglimit = 10

abbrev pub maxholdspawns : ℕ
maxholdspawns = 100

abbrev pub holdsecs : ℕ
holdsecs = 20

abbrev pub holdflags : ℕ
holdflags = 1

abbrev pub respawnsecs : ℕ
respawnsecs = 5

abbrev pub resetflagtime : ℕ
resetflagtime = 10000

abbrev pub invisflagtime : ℕ
invisflagtime = 20000

module _ {F : Type 0} where
  abbrev pub tell : Msg → Ctf F → Ctf F
  tell m s = record s { world = record s.world { sent = s.world.sent ++ (m ∷ []) } }

  abbrev pub change_flag : ℕ → (Flag F → Flag F) → Ctf F → Ctf F
  change_flag i f s = record s { flags = modify s.flags i f }

  unfoldable pub totalscore : Ctf F → ℤ → ℤ
  totalscore s team =
      if eqb_ℤ team (pos 1) then s.score1 else (if eqb_ℤ team (pos 2) then s.score2 else pos 0)

  unfoldable pub setscore : ℤ → ℤ → Ctf F → ℤ × Ctf F
  setscore team score s =
      if eqb_ℤ team (pos 1)
      then (score, record s { score1 = score })
      else if eqb_ℤ team (pos 2)
      then (score, record s { score2 = score })
      else (pos 0, s)

  unfoldable pub addscore : ℤ → ℤ → Ctf F → ℤ × Ctf F
  addscore team score s =
      if eqb_ℤ team (pos 1)
      then (s.score1 +ℤ score, record s { score1 = s.score1 +ℤ score })
      else if eqb_ℤ team (pos 2)
      then (s.score2 +ℤ score, record s { score2 = s.score2 +ℤ score })
      else (pos 0, s)

  unfoldable pub getteamscore : Ctf F → Name → ℤ
  unfolding totalscore
  getteamscore s team = totalscore s (pos (ctfteamflag team))

  -- Only teams with a score are listed.
  unfoldable pub getteamscores : Ctf F → List (Name × ℤ)
  getteamscores s =
      (if eqb_ℤ s.score1 (pos 0) then [] else (name_of "good", s.score1) ∷ [])
      ++ (if eqb_ℤ s.score2 (pos 0) then [] else (name_of "evil", s.score2) ∷ [])

  unfoldable pub insidebase : Floats F → Flag F → Vec F → Bool
  unfolding inside_cylinder
  insidebase fl f o = inside_cylinder fl (baseradius * baseradius) baseheight f.spawnloc o

  -- The first flag that a client carries: the loop `if(flags[j].owner==ci->clientnum)`.
  unfoldable pub carried_by : ℤ → List (Flag F) → Option ℕ
  carried_by cn [] = none
  carried_by cn (f ∷ fs) =
      if eqb_ℤ f.owner cn
      then some 0
      else elim (carried_by cn fs) [ none ↦ none | some j ↦ some (suc j) ]

  -- `canspawn`
  unfoldable pub canspawn : Bool → Bool → Env → Client F → Bool → Bool
  canspawn m_efficiency m_protect env ci connecting =
      if m_efficiency || not m_protect
      then connecting
        || ci.lastdeath == 0
        || leb (ci.lastdeath + respawnsecs * 1000) (env.gamemillis + env.curtime)
      else true

unfoldable pub canchangeteam : Name → Bool
unfolding ctfteamflag
canchangeteam newteam = ltb 0 (ctfteamflag newteam)
