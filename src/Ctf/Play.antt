-- ===== src/Ctf/Play.antt =====
-- Taking, dropping, scoring and the clock of the flag modes: the members of `ctfservmode` that run
-- during a game.
pub mod Take
pub mod Drop
use mathlib.Core.Bool.{not}
use mathlib.Core.List.{map}
use spaghettimod.Prelude.{
  ℕ, zero, suc, ◌+◌, ◌*◌, Bool, true, false, ◌&&◌, ◌||◌, List, [], ◌∷◌, Option, none, some, ltb,
  leb, ◌==◌, if◌then◌else◌, length, get_or, modify,
}
use spaghettimod.Prelude.Int.{ℤ, pos, negsuc, eqb_ℤ, nonneg, leb_ℤ}
use spaghettimod.Prelude.Loop.{for_each}
use spaghettimod.Game.Names.{nonempty}
use spaghettimod.Game.Modes.{m_hold, m_protect}
use spaghettimod.Game.Geometry.{Floats, Vec, quantized, dequantized}
use spaghettimod.Game.World.{
  World, Client, Env, Msg, is_alive, isteam, getinfo, change_client, startintermission, draw,
}
use spaghettimod.Ctf.Flag
use spaghettimod.Ctf.Flag.{Flag, has_owner, bump_version, new_flag}
use spaghettimod.Ctf.State.{
  Ctf, tell, change_flag, ctfteamflag, has_flag_team, insidebase, addscore, carried_by, flaglimit,
  holdsecs, resetflagtime, invisflagtime,
}

module _ {F : Type 0} (fl : Floats F) (env : Env) where
  -- `flags[i]`; the loops and `inrange` keep the index in range.
  abbrev pub flag_at : Ctf F → ℕ → Flag F
  flag_at s i = get_or s.flags i (new_flag fl)

  -- `lastmillis` in protect mode, else 0: the time from which a returned flag cannot be scored on.
  abbrev pub invis_from : ℕ
  invis_from = if m_protect env.gamemode then env.lastmillis else 0

  -- One round of the loop of `dropflag(ci, dropper)`; `dropper` is the team mate who is blamed.
  unfoldable pub drop_round : Client F → Option ℤ → ℕ → Ctf F → Ctf F
  unfolding insidebase Flag.drop Flag.return_home
  drop_round ci dropper i s =
      let f = flag_at s i in
      let version = f.version + 1 in
      let o = quantized fl ci.o in
      let blamed : ℤ = elim dropper [ none ↦ ci.clientnum | some cn ↦ cn ] in
      let penalty : Bool = elim dropper [ none ↦ false | some cn ↦ true ] in
      if eqb_ℤ f.owner ci.clientnum
      then if m_protect env.gamemode && insidebase fl f ci.o
        then tell (Msg.return_flag ci.clientnum i version)
            (change_flag i (λ g. bump_version (Flag.return_home 0 g)) s)
        else tell (Msg.drop_flag ci.clientnum i version o) (
            change_flag i
              (λ g. bump_version (Flag.drop (dequantized fl o) env.lastmillis blamed penalty g)) s)
      else s

  unfoldable pub dropflag : Client F → Option ℤ → Ctf F → Ctf F
  unfolding drop_round
  dropflag ci dropper s =
      if s.notgotflags then s else for_each (length s.flags) (drop_round ci dropper) s

  -- `loopv(flags) if(flags[i].dropper == ci->clientnum) { ... }`
  abbrev pub forget_drops : ℤ → Ctf F → Ctf F
  forget_drops cn s = record s { flags = map (Flag.forget_dropper cn) s.flags }

  unfoldable pub leavegame : Client F → Ctf F → Ctf F
  unfolding dropflag
  leavegame ci s = forget_drops ci.clientnum (dropflag ci none s)

  -- `loopv(flags) if(flags[i].owner==ci->clientnum) deadflag(i);`
  abbrev pub penalise_carried : ℤ → Ctf F → Ctf F
  penalise_carried cn s = record s {
    flags = map (λ f. if eqb_ℤ f.owner cn then Flag.penalise env.lastmillis f else f) s.flags;
  }

  -- `ctftkpenalty && actor && actor != ci && isteam(actor->team, ci->team) ? actor : NULL`
  abbrev pub blamed_killer : Client F → Option (Client F) → Option ℤ
  blamed_killer ci none = none
  blamed_killer ci (some actor) =
      if env.ctftkpenalty
        && not (eqb_ℤ actor.clientnum ci.clientnum)
        && isteam env actor.team ci.team
      then some actor.clientnum
      else none

  unfoldable pub died : Client F → Option (Client F) → Ctf F → Ctf F
  unfolding dropflag
  died ci actor s =
      let t = if m_hold env.gamemode then penalise_carried ci.clientnum s else s in
      if s.notgotflags
      then s
      else forget_drops ci.clientnum (dropflag ci (blamed_killer ci actor) t)

  -- `loopj(4)`: up to four draws of a spawn place other than the flag's own.
  unfoldable pub draw_spawn : ℕ → ℕ → ℤ → ℤ → World F → ℤ × World F
  draw_spawn zero places own drawn w = (drawn, w)
  draw_spawn (suc tries) places own drawn w =
      let (n, w') = draw places w in
      let again = draw_spawn tries places own (pos n) w' in
      if eqb_ℤ (pos n) own then again else (pos n, w')

  unfoldable pub spawnflag : ℕ → Ctf F → Ctf F
  unfolding draw_spawn
  spawnflag i s =
      let own = (flag_at s i).spawnindex in
      let (place, w) = draw_spawn 4 (length s.holdspawns) own own s.world in
      if length s.holdspawns == 0
      then s
      else change_flag i (λ f. record f { spawnindex = place }) (record s { world = w })

  -- The steps of `scoreflag`. `relay` is the flag that is brought, if the score is for bringing one.
  unfoldable pub score_return : Client F → ℕ → Option ℕ → Ctf F → Ctf F
  unfolding Flag.return_home
  score_return ci goal relay s =
      let back : ℕ = elim relay [ none ↦ goal | some j ↦ j ] in
      let s1 = change_flag back (Flag.return_home invis_from) s in
      record s1 {
        world = change_client s1.world ci.clientnum (λ c. record c { flags = c.flags + 1 });
      }

  unfoldable pub score_respawn : ℕ → Ctf F → Ctf F
  unfolding spawnflag
  score_respawn goal s = if m_hold env.gamemode then spawnflag goal s else s

  unfoldable pub score_versions : ℕ → Option ℕ → Ctf F → Ctf F
  score_versions goal relay s =
      change_flag goal bump_version
        (elim relay [ none ↦ s | some j ↦ change_flag j bump_version s ])

  unfoldable pub score_announce : Client F → ℕ → Option ℕ → ℤ → Ctf F → Ctf F
  unfolding ctfteamflag
  score_announce ci goal relay score s =
      let relayed : Option (ℕ × ℕ) = elim relay [
        | none ↦ none
        | some j ↦ some (j, (flag_at s j).version)
      ] in
      let told =
        tell
          (Msg.score_flag ci.clientnum relayed
            (goal, (flag_at s goal).version, (flag_at s goal).spawnindex)
            (ctfteamflag ci.team, score, ci.flags + 1))
          s in
      if leb_ℤ (pos flaglimit) score
      then record told { world = startintermission env told.world }
      else told

  unfoldable pub scoreflag : Client F → ℕ → Option ℕ → Ctf F → Ctf F
  unfolding ctfteamflag addscore
  scoreflag ci goal relay s =
      let (score, s3) =
        addscore (pos (ctfteamflag ci.team)) (pos 1) (score_return ci goal relay s) in
      score_announce ci goal relay score (score_versions goal relay (score_respawn goal s3))

  -- The tests of `takeflag` on the flag that is asked for.
  unfoldable pub refused : Client F → ℤ → Flag F → Bool
  refused ci version f =
      (if m_hold env.gamemode then not (nonneg f.spawnindex) else not (has_flag_team f.team))
      || has_owner f
      || not (eqb_ℤ (pos f.version) version)
      || not (f.droptime == 0) && eqb_ℤ f.dropper ci.clientnum && leb 3 f.dropcount

  -- `m_protect == (f.team==team)`
  abbrev pub same_bool : Bool → Bool → Bool
  same_bool true b = b
  same_bool false b = not b

  unfoldable pub takeflag_at : Client F → ℕ → ℤ → Ctf F → Ctf F
  unfolding refused ctfteamflag carried_by Flag.own Flag.return_home scoreflag
  takeflag_at ci i version s =
      let f = flag_at s i in
      let team = pos (ctfteamflag ci.team) in
      let protect = m_protect env.gamemode in
      let carried = carried_by ci.clientnum s.flags in
      let ownteam = if m_hold env.gamemode then team else negsuc 0 in
      if refused ci version f
      then s
      else if m_hold env.gamemode || same_bool protect (eqb_ℤ f.team team)
      then elim carried [
        | some j ↦ s
        | none ↦
            tell (Msg.take_flag ci.clientnum i (f.version + 1))
              (change_flag i (λ g. bump_version (Flag.own ci.clientnum env.lastmillis ownteam g)) s)
      ]
      else if protect
      then (if f.invistime == 0 then scoreflag ci i none s else s)
      else if not (f.droptime == 0)
      then tell (Msg.return_flag ci.clientnum i (f.version + 1))
          (change_flag i (λ g. bump_version (Flag.return_home 0 g)) s)
      else elim carried [ some j ↦ scoreflag ci i (some j) s | none ↦ s ]

  unfoldable pub takeflag : Client F → ℤ → ℤ → Ctf F → Ctf F
  unfolding takeflag_at
  takeflag ci (negsuc n) version s = s
  takeflag ci (pos i) version s =
      if s.notgotflags
        || not (ltb i (length s.flags))
        || not (is_alive ci.life)
        || not (nonempty ci.team)
      then s
      else takeflag_at ci i version s

  -- The three steps of `update` for one flag.
  unfoldable pub reset_dropped : ℕ → Ctf F → Ctf F
  unfolding Flag.return_home spawnflag addscore
  reset_dropped i s =
      let f = flag_at s i in
      let hold = m_hold env.gamemode in
      let s1 = change_flag i (Flag.return_home invis_from) s in
      let s2 = if hold then spawnflag i s1 else s1 in
      let s3 = change_flag i bump_version s2 in
      let g = flag_at s3 i in
      let (score, s4) = addscore g.team (if m_protect env.gamemode then negsuc 0 else pos 0) s3 in
      let reported = if hold then s3 else s4 in
      if not (has_owner f)
        && not (f.droptime == 0)
        && leb (f.droptime + resetflagtime) env.lastmillis
      then tell
          (Msg.reset_flag i g.version g.spawnindex (if hold then pos 0 else g.team)
            (if hold then pos 0 else score))
          reported
      else s

  unfoldable pub end_invisible : ℕ → Ctf F → Ctf F
  end_invisible i s =
      let f = flag_at s i in
      if not (f.invistime == 0) && leb (f.invistime + invisflagtime) env.lastmillis
      then tell (Msg.invis_flag i 0) (change_flag i (λ g. record g { invistime = 0 }) s)
      else s

  unfoldable pub score_held : ℕ → Ctf F → Ctf F
  unfolding scoreflag spawnflag
  score_held i s =
      let f = flag_at s i in
      let moved = change_flag i bump_version (spawnflag i s) in
      let g = flag_at moved i in
      if m_hold env.gamemode && has_owner f && leb (f.holdtime + holdsecs * 1000) env.lastmillis
      then elim (getinfo s.world.clients f.owner) [
        | some ci ↦ scoreflag ci i none s
        | none ↦ tell (Msg.reset_flag i g.version g.spawnindex (pos 0) (pos 0)) moved
      ]
      else s

  unfoldable pub update_flag : ℕ → Ctf F → Ctf F
  unfolding reset_dropped end_invisible score_held
  update_flag i s = score_held i (end_invisible i (reset_dropped i s))

  unfoldable pub update : Ctf F → Ctf F
  unfolding update_flag
  update s =
      if leb s.world.gamelimit env.gamemillis || s.notgotflags
      then s
      else for_each (length s.flags) update_flag s
