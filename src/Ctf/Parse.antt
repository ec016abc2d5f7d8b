-- ===== src/Ctf/Parse.antt =====
-- `parseflags` and `changeteam` of fpsgame/ctf.h.
use spaghettimod.Prelude.{ℕ, zero, suc, Bool, false, ◌&&◌, none, if◌then◌else◌}
use spaghettimod.Prelude.Int.{ℤ, pos_part}
use spaghettimod.Wire.Buffer.{DataBuf}
use spaghettimod.Wire.Ints.{getint, signed32}
use spaghettimod.Game.Modes.{m_hold}
use spaghettimod.Game.Geometry.{Floats, Vec}
use spaghettimod.Game.ReadVec.{read_vec}
use spaghettimod.Game.World.{Client, Env}
use spaghettimod.Ctf.State.{Ctf}
use spaghettimod.Ctf.Play.{dropflag, invis_from}
use spaghettimod.Ctf.Setup.{addflag, addholdspawn, setupholdspawns}

module _ {F : Type 0} (fl : Floats F) (env : Env) where
  unfoldable pub changeteam : Client F → Ctf F → Ctf F
  unfolding dropflag
  changeteam ci s = dropflag fl env ci none s

  unfoldable pub place_flag : Bool → ℕ → ℤ → Vec F → Ctf F → Ctf F
  unfolding addflag addholdspawn
  place_flag commit i team o s =
      if commit && s.notgotflags
      then (if m_hold env.gamemode
          then (addholdspawn o s).1
          else (addflag fl env i o team (invis_from fl env) s).1)
      else s

  -- `loopi(numflags)`: `left` rounds are left. It stops where the message ends.
  unfoldable pub read_flags : Bool → ℕ → ℕ → DataBuf → Ctf F → DataBuf × Ctf F
  unfolding place_flag getint read_vec
  read_flags commit zero i p s = (p, s)
  read_flags commit (suc left) i p s =
      let (team, p1) = getint p in
      let (o, p2) = read_vec fl p1 in
      let rest = read_flags commit left (suc i) p2 (place_flag commit i (signed32 team) o s) in
      if p2.overread then (p2, s) else rest

  unfoldable pub parseflags : DataBuf → Bool → Ctf F → DataBuf × Ctf F
  unfolding read_flags setupholdspawns getint
  parseflags p commit s =
      let (numflags, p1) = getint p in
      let (p2, read) = read_flags commit (pos_part (signed32 numflags)) 0 p1 s in
      let ready = if m_hold env.gamemode then setupholdspawns fl env read else read in
      (p2, if commit && read.notgotflags then record ready { notgotflags = false } else read)
