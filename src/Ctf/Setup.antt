-- ===== src/Ctf/Setup.antt =====
-- Starting the flag modes: flags from the map's entities or from a client's list, and the state that
-- a connecting client is sent.
pub mod Teams
use spaghettimod.Prelude.{
  ℕ, zero, suc, ◌+◌, ◌-◌, ◌/◌, Bool, true, false, ◌&&◌, ◌||◌, List, [], ◌∷◌, ◌++◌, ltb, leb, ◌==◌,
  if◌then◌else◌, length, get_or, modify, replicate,
}
use mathlib.Core.Bool.{not}
use mathlib.Core.List.{flat_map}
use spaghettimod.Prelude.Int.{ℤ, pos, negsuc, eqb_ℤ, ltb_ℤ, div_int}
use spaghettimod.Prelude.Loop.{for_each}
use spaghettimod.Game.Items.{ent_base, ent_flag}
use spaghettimod.Game.Modes.{m_hold, m_protect}
use spaghettimod.Game.Geometry.{Floats, Vec, origin, quantized}
use spaghettimod.Game.World.{World, Env, Msg, Entity}
use spaghettimod.Ctf.Flag
use spaghettimod.Ctf.Flag.{Flag, bump_version, new_flag, has_owner}
use spaghettimod.Ctf.State.{Ctf, tell, change_flag, maxflags, maxholdspawns, holdflags}
use spaghettimod.Ctf.Play.{spawnflag, flag_at, invis_from}

-- `servmodeitem` of fpsgame/game.h: a flag or base in a client's list.
pub record ServModeItem (F : Type 0) : Type 0 where
  pub tag : ℤ
  pub o : Vec F

module _ {F : Type 0} where
  unfoldable pub resetflags : Ctf F → Ctf F
  resetflags s = record s { holdspawns = []; flags = []; score1 = pos 0; score2 = pos 0 }

  unfoldable pub reset : Bool → Ctf F → Ctf F
  unfolding resetflags
  reset empty s = record (resetflags s) { notgotflags = not empty }

  unfoldable pub cleanup : Ctf F → Ctf F
  unfolding reset
  cleanup s = reset false s

  unfoldable pub newmap : Ctf F → Ctf F
  unfolding reset
  newmap s = reset true s

  unfoldable pub addholdspawn : Vec F → Ctf F → Bool × Ctf F
  addholdspawn o s =
      if leb maxholdspawns (length s.holdspawns)
      then (false, s)
      else (true, record s { holdspawns = s.holdspawns ++ (o ∷ []) })

module _ {F : Type 0} (fl : Floats F) (env : Env) where
  -- `while(flags.length()<=i) flags.add();`
  abbrev pub pad_flags : ℕ → List (Flag F) → List (Flag F)
  pad_flags i fs = fs ++ replicate (suc i - length fs) (new_flag fl)

  -- No caller passes a negative index. `id` is assigned before `reset`, which keeps it.
  unfoldable pub addflag : ℕ → Vec F → ℤ → ℕ → Ctf F → Bool × Ctf F
  unfolding Flag.reset
  addflag i o team invistime s =
      let init = λ (f : Flag F). record (Flag.reset fl (record f { id = pos i })) {
        team = team;
        spawnloc = o;
        invistime = invistime;
      } in
      if leb maxflags i
      then (false, s)
      else (true, record s { flags = modify (pad_flags i s.flags) i init })

  -- `while(flags.length() < HOLDFLAGS)`: `need` is the number of flags that are missing.
  unfoldable pub hold_loop : ℕ → Ctf F → Ctf F
  unfolding addflag
  hold_loop zero s = s
  hold_loop (suc need) s =
      let i = length s.flags in
      let (added, s1) = addflag i (origin fl) (pos 0) 0 s in
      let s2 = change_flag i bump_version (spawnflag fl env i s1) in
      let f = flag_at fl env s2 i in
      let rest =
        hold_loop need (tell (Msg.reset_flag i f.version f.spawnindex (pos 0) (pos 0)) s2) in
      if added then rest else s1

  unfoldable pub setupholdspawns : Ctf F → Ctf F
  unfolding hold_loop
  setupholdspawns s =
      if not (m_hold env.gamemode) || length s.holdspawns == 0
      then s
      else hold_loop (holdflags - length s.flags) s

  -- The loops over the map's entities stop when a place cannot be added.
  unfoldable pub add_spawns : List (Entity F) → Ctf F → Ctf F
  unfolding addholdspawn
  add_spawns [] s = s
  add_spawns (e ∷ es) s =
      let (added, s1) = addholdspawn e.o s in
      let skipped = add_spawns es s in
      let rest = add_spawns es s1 in
      if not (e.type == ent_base) then skipped else (if added then rest else s1)

  unfoldable pub add_map_flags : List (Entity F) → Ctf F → Ctf F
  unfolding addflag
  add_map_flags [] s = s
  add_map_flags (e ∷ es) s =
      let (added, s1) = addflag (length s.flags) e.o e.attr2 (invis_from fl env) s in
      let skipped = add_map_flags es s in
      let rest = add_map_flags es s1 in
      if not (e.type == ent_flag) || ltb_ℤ e.attr2 (pos 1) || ltb_ℤ (pos 2) e.attr2
      then skipped
      else (if added then rest else s1)

  unfoldable pub setup : Bool → List (Entity F) → Ctf F → Ctf F
  unfolding reset setupholdspawns add_spawns add_map_flags
  setup notgotitems ments s =
      let s0 = reset false s in
      let filled =
        (if m_hold env.gamemode
          then setupholdspawns (add_spawns ments s0)
          else add_map_flags ments s0) in
      if notgotitems || length ments == 0 then s0 else record filled { notgotflags = false }

  -- `parseitems`: the third argument of `addflag` is its team.
  unfoldable pub parse_item : List (ServModeItem F) → ℕ → Ctf F → Ctf F
  unfolding addholdspawn addflag
  parse_item [] i s = s
  parse_item (item ∷ items) i s = parse_item items (suc i) (
      if m_hold env.gamemode
      then (addholdspawn item.o s).1
      else (addflag i item.o (pos (invis_from fl env)) 0 s).1)

  unfoldable pub parseitems : List (ServModeItem F) → Bool → Ctf F → Ctf F
  unfolding parse_item setupholdspawns
  parseitems items commit s =
      let placed = parse_item items 0 s in
      let ready = if m_hold env.gamemode then setupholdspawns placed else placed in
      if not commit || not s.notgotflags then s else record ready { notgotflags = false }

  -- The numbers of `initclient` for a flag.
  unfoldable pub flag_ints : Flag F → List ℤ
  unfolding Flag.holdcounter
  flag_ints f =
      let at = quantized fl f.droploc in
      let dropped =
        (if has_owner f
          then []
          else if f.droptime == 0
          then pos 0 ∷ []
          else pos 1 ∷ at.x ∷ at.y ∷ at.z ∷ []) in
      let held =
        (if not (m_hold env.gamemode)
          then []
          else if eqb_ℤ f.team (pos 0) || f.holdtime == 0
          then negsuc 0 ∷ []
          else f.team ∷ div_int (Flag.holdcounter env.lastmillis f) 100 ∷ []) in
      (pos f.version ∷ f.spawnindex ∷ f.owner ∷ pos (if f.invistime == 0 then 0 else 1) ∷ [])
      ++ (dropped ++ held)

  -- What `initclient` puts after N_INITFLAGS.
  unfoldable pub initclient : Ctf F → List ℤ
  unfolding flag_ints
  initclient s = s.score1 ∷ s.score2 ∷ pos (length s.flags) ∷ flat_map flag_ints s.flags
