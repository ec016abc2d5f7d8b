-- ===== src/Capture/Play.antt =====
-- Entering, leaving and occupying bases, ammunition, scores and the clock of the capture modes.
pub mod Bases
use Prim.Native.Nat.{min}
use mathlib.Core.Bool.{not}
use mathlib.Core.List.{map}
use spaghettimod.Prelude.{
  ℕ, zero, suc, ◌+◌, ◌-◌, ◌*◌, ◌/◌, Bool, true, false, ◌&&◌, ◌||◌, List, [], ◌∷◌, ◌++◌, Option,
  none, some, ltb, leb, ◌==◌, if◌then◌else◌, length, get_or,
}
use spaghettimod.Prelude.Int.{ℤ, pos, negsuc, pos_part, ◌+ℤ◌, ◌-ℤ◌, eqb_ℤ, ltb_ℤ, leb_ℤ, div_int}
use spaghettimod.Prelude.Loop.{for_each}
use spaghettimod.Game.Names.{Name, same_name, nonempty}
use spaghettimod.Game.Items.{ent_base, gun_sg, gun_pistol, i_shells, i_greenarmour, item_stat}
use spaghettimod.Game.Modes.{m_noitems, m_regencapture}
use spaghettimod.Game.Geometry.{Floats, Vec, origin}
use spaghettimod.Game.Player
use spaghettimod.Game.Player.{FpsState, Armour, green, hasmaxammo, ammo_of, min_ℤ}
use spaghettimod.Game.World.{
  World, Client, Env, Msg, Entity, is_alive, change_client, startintermission,
}
use spaghettimod.Ctf.Setup.{ServModeItem}
use spaghettimod.Capture.Base
use spaghettimod.Capture.Base.{BaseInfo, new_base, valid, enter, steal, leave, occupy, takeammo}
use spaghettimod.Capture.State
use spaghettimod.Capture.State.{
  Capture, Score, report, change_base, change_score, insidebase, addbase, reset,
}

abbrev pub scoresecs : ℕ
scoresecs = 10

abbrev pub ammosecs : ℕ
ammosecs = 15

abbrev pub regensecs : ℕ
regensecs = 1

abbrev pub regenhealth : ℕ
regenhealth = 10

abbrev pub regenarmour : ℕ
regenarmour = 10

abbrev pub regenammo : ℕ
regenammo = 20

abbrev pub capture_respawnsecs : ℕ
capture_respawnsecs = 5

abbrev pub is_green : Armour → Bool
is_green green = true
is_green _ = false

module _ {F : Type 0} (fl : Floats F) (env : Env) where
  abbrev pub base_at : Capture F → ℕ → BaseInfo F
  base_at s i = get_or s.bases i (new_base fl)

  unfoldable pub sendbaseinfo : ℕ → Capture F → Capture F
  sendbaseinfo i s =
      let b = base_at s i in
      report
        (Msg.base_info i (b.owner, b.enemy)
          (if nonempty b.enemy then b.converted else pos 0, if nonempty b.owner then b.ammo else 0))
        s

  unfoldable pub sendbases : Capture F → Capture F
  sendbases s =
      report
        (Msg.bases
          (map (λ (b : BaseInfo F). (b.ammotype, b.owner, b.enemy, b.converted, b.ammo)) s.bases))
        s

  -- The clients of the team inside the base enter it, one after the other.
  unfoldable pub enter_one : Name → Client F → BaseInfo F → BaseInfo F
  unfolding enter insidebase
  enter_one team c b =
      if is_alive c.life && nonempty c.team && same_name c.team team && insidebase fl b c.o
      then (enter c.team b).1
      else b

  unfoldable pub enter_team : Name → List (Client F) → BaseInfo F → BaseInfo F
  unfolding enter_one
  enter_team team [] b = b
  enter_team team (c ∷ cs) b = enter_team team cs (enter_one team c b)

  unfoldable pub stealbase : ℕ → Name → Capture F → Capture F
  unfolding enter_team sendbaseinfo
  stealbase n team s = sendbaseinfo n (change_base n (enter_team team s.world.clients) s)

  -- One round of `movebases`.
  unfoldable pub move_round : Name → Vec F → Bool → Vec F → Bool → ℕ → Capture F → Capture F
  unfolding valid leave enter steal insidebase stealbase sendbaseinfo
  move_round team oldpos oldclip newpos newclip i s =
      let b = base_at s i in
      let leaves = not oldclip && insidebase fl b oldpos in
      let enters = not newclip && insidebase fl b newpos in
      let left = change_base i (λ c. (leave team c).1) s in
      let entered = change_base i (λ c. (enter team c).1) s in
      if not (valid b)
      then s
      else if leaves && not enters
      then (if (leave team b).0 then sendbaseinfo i left else left)
      else if enters && not leaves
      then (if (enter team b).0 then sendbaseinfo i entered else entered)
      else (if leaves && enters && steal team b then stealbase i team s else s)

  unfoldable pub movebases : Name → Vec F → Bool → Vec F → Bool → Capture F → Capture F
  unfolding move_round
  movebases team oldpos oldclip newpos newclip s =
      if not (nonempty team) || leb s.world.gamelimit env.gamemillis
      then s
      else for_each (length s.bases) (move_round team oldpos oldclip newpos newclip) s

  -- A position is not read where its clip flag is set; the source passes a far one.
  unfoldable pub leavebases : Name → Vec F → Capture F → Capture F
  unfolding movebases
  leavebases team o s = movebases team o false (origin fl) true s

  unfoldable pub enterbases : Name → Vec F → Capture F → Capture F
  unfolding movebases
  enterbases team o s = movebases team (origin fl) true o false s

  unfoldable pub entergame : Client F → Capture F → Capture F
  unfolding enterbases
  entergame ci s =
      if s.notgotbases || not (is_alive ci.life) || ci.gameclip
      then s
      else enterbases ci.team ci.o s

  unfoldable pub spawned : Client F → Capture F → Capture F
  unfolding enterbases
  spawned ci s = if s.notgotbases || ci.gameclip then s else enterbases ci.team ci.o s

  unfoldable pub leavegame : Client F → Capture F → Capture F
  unfolding leavebases
  leavegame ci s =
      if s.notgotbases || not (is_alive ci.life) || ci.gameclip
      then s
      else leavebases ci.team ci.o s

  unfoldable pub died : Client F → Capture F → Capture F
  unfolding leavebases
  died ci s = if s.notgotbases || ci.gameclip then s else leavebases ci.team ci.o s

  unfoldable pub moved : Client F → Vec F → Bool → Vec F → Bool → Capture F → Capture F
  unfolding movebases
  moved ci oldpos oldclip newpos newclip s =
      if s.notgotbases then s else movebases ci.team oldpos oldclip newpos newclip s

  unfoldable pub changeteam : Client F → Name → Name → Capture F → Capture F
  unfolding leavebases enterbases
  changeteam ci oldteam newteam s =
      if s.notgotbases || ci.gameclip
      then s
      else enterbases newteam ci.o (leavebases oldteam ci.o s)

  unfoldable pub canspawn : Client F → Bool → Bool
  canspawn ci connecting =
      m_regencapture env.gamemode
      || connecting
      || ci.lastdeath == 0
      || leb (ci.lastdeath + capture_respawnsecs * 1000) (env.gamemillis + env.curtime)

  -- The first base that has ammunition for the client.
  unfoldable pub supplier : Client F → ℕ → List (BaseInfo F) → Option ℕ
  unfolding valid insidebase takeammo
  supplier ci i [] = none
  supplier ci i (b ∷ bs) =
      if valid b
        && insidebase fl b ci.o
        && not (hasmaxammo ci.player (b.ammotype - 1 + i_shells))
        && (takeammo ci.team b).0
      then some i
      else supplier ci (suc i) bs

  unfoldable pub replenishammo : Client F → Capture F → Capture F
  unfolding supplier takeammo sendbaseinfo
  replenishammo ci s =
      if m_noitems env.gamemode || s.notgotbases || not (is_alive ci.life) || not (nonempty ci.team)
      then s
      else elim (supplier ci 0 s.bases) [
        | none ↦ s
        | some i ↦
            let type = (base_at s i).ammotype in
            let s1 =
              report (Msg.rep_ammo ci.clientnum type)
                (sendbaseinfo i (change_base i (λ b. (takeammo ci.team b).1) s)) in
            record s1 {
              world =
                  change_client s1.world ci.clientnum
                    (λ c. record c { player = Player.addammo c.player type 1 1 });
            }
      ]

  -- The sum is what the team has after it, with 0 for a team without a score.
  unfoldable pub addscore : ℕ → Name → ℕ → Capture F → Capture F
  unfolding change_score
  addscore base team n s =
      if n == 0
      then s
      else report (Msg.base_score (pos base) team (State.getteamscore s.scores team +ℤ pos n))
          (record s { scores = change_score team (λ total. total +ℤ pos n) s.scores })
