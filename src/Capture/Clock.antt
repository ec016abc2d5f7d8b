-- ===== src/Capture/Clock.antt =====
-- The clock of the capture modes: `update` with `regenowners` and `endcheck`; and starting a map.
pub mod Bases
pub mod Winner
use Prim.Native.Nat.{min}
use mathlib.Core.Bool.{not}
use spaghettimod.Prelude.{
  ℕ, zero, suc, ◌+◌, ◌-◌, ◌*◌, ◌/◌, Bool, true, false, ◌&&◌, ◌||◌, List, [], ◌∷◌, ◌++◌, Option,
  none, some, ltb, leb, ◌==◌, if◌then◌else◌, length,
}
use spaghettimod.Prelude.Int.{ℤ, pos, negsuc, pos_part, ◌+ℤ◌, ◌-ℤ◌, eqb_ℤ, ltb_ℤ, leb_ℤ, div_int}
use spaghettimod.Prelude.Loop.{for_each}
use spaghettimod.Game.Names.{Name, same_name, nonempty}
use spaghettimod.Game.Items.{ent_base, gun_sg, gun_pistol, i_shells, i_greenarmour, item_stat}
use spaghettimod.Game.Modes.{m_regencapture}
use spaghettimod.Game.Geometry.{Floats, Vec}
use spaghettimod.Game.Player
use spaghettimod.Game.Player.{FpsState, green, hasmaxammo, ammo_of, min_ℤ}
use spaghettimod.Game.World.{World, Client, Env, Msg, Entity, is_alive, startintermission}
use spaghettimod.Ctf.Setup.{ServModeItem}
use spaghettimod.Capture.Base
use spaghettimod.Capture.Base.{BaseInfo, valid, occupy, addammo}
use spaghettimod.Capture.State.{
  Capture, report, change_base, change_score, insidebase, addbase, reset,
}
use spaghettimod.Capture.Play.{
  base_at, sendbaseinfo, sendbases, entergame, addscore, scoresecs, ammosecs, regensecs,
  regenhealth, regenarmour, regenammo, is_green,
}

abbrev pub occupybonus : ℕ
occupybonus = 1

abbrev pub occupypoints : ℕ
occupypoints = 1

-- The seconds of a base's time that end in this step, in units of `secs`. The time grows.
unfoldable pub elapsed : ℤ → ℕ → ℕ → ℕ
elapsed capturetime t secs =
    pos_part (div_int capturetime secs -ℤ div_int (capturetime -ℤ pos t) secs)

module _ {F : Type 0} (fl : Floats F) (env : Env) where
  -- What a base gives back to a player: whether anything, and the player.
  unfoldable pub regenerate : BaseInfo F → ℕ → FpsState → Bool × FpsState
  unfolding valid
  regenerate b ticks p =
      let most = (item_stat (i_greenarmour - i_shells)).max in
      let hurt = ltb_ℤ p.health (pos p.maxhealth) in
      let worn = is_green p.armourtype in
      let thin = not worn || ltb p.armour most in
      let short = valid b && not (hasmaxammo p (b.ammotype - 1 + i_shells)) in
      let p1 =
        if hurt
        then record p { health = min_ℤ (p.health +ℤ pos (ticks * regenhealth)) (pos p.maxhealth) }
        else p in
      let p2 =
        if thin
        then record p1 {
          armourtype = green;
          armour = min ((if worn then p.armour else 0) + ticks * regenarmour) most;
        }
        else p1 in
      let p3 = if short then Player.addammo p2 b.ammotype (ticks * regenammo) 100 else p2 in
      (hurt || thin || short, p3)

  abbrev pub at_home : BaseInfo F → Client F → Bool
  at_home b c =
      is_alive c.life && nonempty c.team && same_name c.team b.owner && insidebase fl b c.o

  unfoldable pub regen_clients : BaseInfo F → ℕ → List (Client F) → List (Client F) × List Msg
  unfolding regenerate insidebase valid
  regen_clients b ticks [] = ([], [])
  regen_clients b ticks (c ∷ cs) =
      let (rest, msgs) = regen_clients b ticks cs in
      let (notify, p) = regenerate b ticks c.player in
      let msg =
        Msg.base_regen c.clientnum (p.health, p.armour)
          (b.ammotype, if valid b then ammo_of p b.ammotype else 0) in
      if at_home b c
      then ((record c { player = p }) ∷ rest, (if notify then msg ∷ msgs else msgs))
      else (c ∷ rest, msgs)

  unfoldable pub regenowners : ℕ → ℕ → Capture F → Capture F
  unfolding regen_clients
  regenowners i ticks s =
      let (clients, msgs) = regen_clients (base_at fl env s i) ticks s.world.clients in
      record s { world = record s.world { clients = clients; sent = s.world.sent ++ msgs } }

  -- The one team that owns all valid bases; `last` owns those before.
  unfoldable pub only_owner : Option Name → List (BaseInfo F) → Option Name
  unfolding valid
  only_owner last [] = last
  only_owner last (b ∷ bs) =
      if not (valid b)
      then only_owner last bs
      else if not (nonempty b.owner)
      then none
      else elim last [
        | none ↦ only_owner (some b.owner) bs
        | some team ↦ if same_name team b.owner then only_owner (some team) bs else none
      ]

  unfoldable pub endcheck : Capture F → Capture F
  unfolding only_owner change_score
  endcheck s = elim (only_owner none s.bases) [
    | none ↦ s
    | some team ↦
        let s1 =
          report (Msg.base_score (negsuc 0) team (pos 10000))
            (record s { scores = change_score team (λ total. pos 10000) s.scores }) in
        record s1 { world = startintermission env s1.world }
  ]

  -- `OCCUPYBONUS*(enemies ? 1 : -1) + OCCUPYPOINTS*(enemies ? enemies : -(1+owners))*t`
  abbrev pub units : BaseInfo F → ℕ → ℤ
  units b t =
      if b.enemies == 0
      then negsuc (occupybonus - 1 + occupypoints * (1 + b.owners) * t)
      else pos (occupybonus + occupypoints * b.enemies * t)

  -- One round of `update`, of `t` seconds.
  unfoldable pub contested : ℕ → ℕ → Capture F → Capture F
  unfolding sendbaseinfo occupy
  contested t i s =
      let b = base_at fl env s i in
      sendbaseinfo fl env i (
        if b.owners == 0 || b.enemies == 0
        then change_base i (λ c. (occupy c.enemy (units c t) c).1) s
        else s)

  unfoldable pub earn_ammo : ℕ → ℕ → Capture F → Capture F
  unfolding sendbaseinfo addammo
  earn_ammo n i s =
      let (added, b) = addammo n (base_at fl env s i) in
      if not (n == 0) && added
      then sendbaseinfo fl env i (change_base i (λ c. (addammo n c).1) s)
      else s

  unfoldable pub owned : ℕ → ℕ → Capture F → Capture F
  unfolding addscore regenowners earn_ammo elapsed
  owned t i s =
      let s1 = change_base i (λ c. record c { capturetime = c.capturetime +ℤ pos t }) s in
      let b = base_at fl env s1 i in
      let s2 = addscore fl env i b.owner (elapsed b.capturetime t scoresecs) s1 in
      let regen = elapsed b.capturetime t regensecs in
      if m_regencapture env.gamemode
      then (if regen == 0 then s2 else regenowners i regen s2)
      else earn_ammo (elapsed b.capturetime t ammosecs) i s2

  unfoldable pub update_base : ℕ → ℕ → Capture F → Capture F
  unfolding valid contested owned
  update_base t i s =
      let b = base_at fl env s i in
      if not (valid b)
      then s
      else if nonempty b.enemy
      then contested t i s
      else (if nonempty b.owner then owned t i s else s)

  -- `endcheck` may end the game; the bases are still updated.
  unfoldable pub update : Capture F → Capture F
  unfolding endcheck update_base
  update s =
      let t = env.gamemillis / 1000 - (env.gamemillis - env.curtime) / 1000 in
      let s1 = endcheck s in
      if leb s.world.gamelimit env.gamemillis
      then s
      else (if t == 0 then s1 else for_each (length s1.bases) (update_base t) s1)

  -- `loopv(clients) if(clients[i]->state.state==CS_ALIVE) entergame(clients[i]);`
  unfoldable pub enter_all : List (Client F) → Capture F → Capture F
  unfolding entergame
  enter_all [] s = s
  enter_all (c ∷ cs) s = enter_all cs (if is_alive c.life then entergame fl env c s else s)

  unfoldable pub add_entities : List (Entity F) → Capture F → Capture F
  unfolding addbase
  add_entities [] s = s
  add_entities (e ∷ es) s =
      add_entities es (if e.type == ent_base then addbase fl e.attr1 e.o s else s)

  -- `notgotbases = false; sendbases();` and the clients enter.
  abbrev pub start : Capture F → Capture F
  start s = enter_all s.world.clients (sendbases fl env (record s { notgotbases = false }))

  unfoldable pub setup : Bool → List (Entity F) → Capture F → Capture F
  unfolding reset add_entities sendbases enter_all
  setup notgotitems ments s =
      let s0 = reset false s in
      if notgotitems || length ments == 0 then s0 else start (add_entities ments s0)

  -- `ammotype>=GUN_SG && ammotype<=GUN_PISTOL ? ammotype : min(ammotype, 0)`
  abbrev pub base_type : ℤ → ℤ
  base_type (pos n) = if leb gun_sg n && leb n gun_pistol then pos n else pos 0
  base_type (negsuc n) = negsuc n

  unfoldable pub add_items : List (ServModeItem F) → Capture F → Capture F
  unfolding addbase
  add_items [] s = s
  add_items (item ∷ items) s = add_items items (addbase fl (base_type item.tag) item.o s)

  unfoldable pub parseitems : List (ServModeItem F) → Bool → Capture F → Capture F
  unfolding add_items sendbases enter_all
  parseitems items commit s =
      if not commit || not s.notgotbases then s else start (add_items items s)

  -- What `extinfoteam` writes: how many bases the team owns, and which.
  unfoldable pub bases_of : Name → ℕ → List (BaseInfo F) → List ℕ
  bases_of team i [] = []
  bases_of team i (b ∷ bs) =
      (if same_name b.owner team then i ∷ [] else []) ++ bases_of team (suc i) bs

  unfoldable pub extinfoteam : Name → Capture F → List ℕ
  unfolding bases_of
  extinfoteam team s = let found = bases_of team 0 s.bases in length found ∷ found
