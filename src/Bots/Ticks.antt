-- ===== src/Bots/Ticks.antt =====
-- What the server does about the bots at each tick and at the players' requests (fpsgame/aiman.h,
-- with `numclients`, `sendspawn` and `sendresume` of fpsgame/server.cpp). The hooks of the Lua
-- scripts are taken to be unset.
use Prim.Native.Nat.{min}
use mathlib.Core.Bool.{not}
use spaghettimod.Prelude.{
  ℕ, zero, suc, ◌+◌, ◌%◌, Bool, true, false, ◌&&◌, ◌||◌, List, [], ◌∷◌, Option, none, some, ltb,
  leb, ◌==◌, if◌then◌else◌, length, get_or,
}
use spaghettimod.Prelude.Int.{ℤ, pos, negsuc, eqb_ℤ, nonneg}
use spaghettimod.Game.Modes.{m_teammode, m_botmode}
use spaghettimod.Game.World.{Env, is_spectator, is_alive}
use spaghettimod.Bots.Member.{
  Member, Note, init_ai, spawn_state, resume, no_bot_made, no_bot_removed, limit_is, balance_is,
  Host, Bots, tell, change_member, maxbots,
}
use spaghettimod.Bots.Assign.{reassign_all}
use spaghettimod.Bots.Member.Load.{load}
use spaghettimod.Bots.Roster.{reassign, find_slot, delete_bot, deleteai, addai}
use spaghettimod.Bots.Teams.{balanceteams}

-- `PRIV_ADMIN`
abbrev pub priv_admin : ℕ
priv_admin = 3

-- Whether `numclients` counts a client.
abbrev pub counts : ℤ → Bool → Bool → Bool → Member → Bool
counts exclude nospec noai priv ci =
    not (eqb_ℤ ci.clientnum exclude)
    && (not nospec || not (is_spectator ci.life) || (priv && (not (ci.privilege == 0) || ci.local)))
    && (not noai || not ci.is_ai)

unfoldable pub numclients : List Member → ℤ → Bool → Bool → Bool → ℕ
numclients [] exclude nospec noai priv = 0
numclients (ci ∷ cs) exclude nospec noai priv =
    let rest = numclients cs exclude nospec noai priv in
    if counts exclude nospec noai priv ci then suc rest else rest

module _ {M : Type 0} (host : Host M) (env : Env) where
  -- `sendspawn`, with `spawnstate` of server.cpp.
  unfoldable pub sendspawn : Member → Bots M → Bots M
  sendspawn ci s =
      let (p, r) = host.spawn ci.player s.rng in
      let life = (ci.session.lifesequence + 1) % 128 in
      tell (spawn_state ci.ownernum ci.clientnum life p) (
        change_member (record s { rng = r }) ci.clientnum
          (λ c. record c {
            player = p;
            session = record c.session { lifesequence = life; lastspawn = pos env.gamemillis };
          }))

  unfoldable pub sendresume : Member → Bots M → Bots M
  sendresume ci s = tell (resume ci.clientnum ci.life ci.session.lifesequence ci.player) s

  -- The announcement of a bot that is new or has another owner.
  unfoldable pub announce_bot : Member → Bots M → Bots M
  announce_bot ci s =
      let told =
        tell (init_ai ci.clientnum ci.ownernum ci.skill ci.playermodel (ci.name, ci.team)) s in
      let again = reassign ci in
      let renewed =
        if ci.aireinit == 2
        then (let kept = change_member told ci.clientnum reassign in
            if is_alive again.life then sendspawn again kept else sendresume again kept)
        else told in
      change_member renewed ci.clientnum (λ c. record c { aireinit = 0 })

  unfoldable pub reinitai : Member → Bots M → Bots M
  reinitai ci s =
      if not (nonneg ci.ownernum)
      then delete_bot host env ci s
      else if leb 1 ci.aireinit
      then announce_bot ci s
      else s

  -- `loopvrev(bots) if(bots[i]) body(bots[i])`, with `k` slots left.
  unfoldable pub each_bot : (Member → Bots M → Bots M) → ℕ → Bots M → Bots M
  each_bot body zero s = s
  each_bot body (suc k) s = each_bot body k (visit (find_slot s.clients (get_or s.slots k none)))
    where
      visit : Option Member → Bots M
      visit none = s
      visit (some ci) = body ci s

  unfoldable pub checksetup : Bots M → Option (Bots M)
  checksetup s = elim (m_teammode env.gamemode && s.botbalance) [
    | true ↦ elim (balanceteams host s) [
      | none ↦ none
      | some t ↦ some (each_bot reinitai (length t.slots) t)
    ]
    | false ↦ some (each_bot reinitai (length s.slots) s)
  ]

  unfoldable pub clearai : Bots M → Bots M
  clearai s = each_bot (delete_bot host env) (length s.slots) s

  -- `none` means that the fuel of a loop ran out.
  unfoldable pub checkai : Bots M → Option (Bots M)
  checkai s =
      let quiet = record s { dorefresh = false } in
      elim s.dorefresh [
        | false ↦ some s
        | true ↦
            elim (m_botmode env.gamemode
              && ltb 0 (numclients s.clients (negsuc 0) false true false)) [
                | false ↦ some (clearai quiet)
                | true ↦ elim (checksetup quiet) [
                  | none ↦ none
                  | some t ↦ reassign_all host (load t.clients + 1) t
                ]
              ]
      ]

  -- Who may ask for bots.
  abbrev pub may_ask : Member → Bool
  may_ask ci = ci.local || not (ci.privilege == 0)

  abbrev pub answer : Note → Bool × Bots M → Bots M
  answer refusal (true, s) = s
  answer refusal (false, s) = tell refusal s

  unfoldable pub reqadd : Member → ℤ → Bots M → Bots M
  reqadd ci skill s =
      let limit =
        if not ci.local && ltb ci.privilege priv_admin then pos s.botlimit else negsuc 0 in
      if not (may_ask ci)
      then s
      else answer (no_bot_made ci.clientnum) (addai host env skill limit s)

  unfoldable pub reqdel : Member → Bots M → Bots M
  reqdel ci s =
      if not (may_ask ci) then s else answer (no_bot_removed ci.clientnum) (deleteai host env s)

  abbrev pub clamp_limit : ℤ → ℕ
  clamp_limit (pos n) = min n maxbots
  clamp_limit (negsuc n) = 0

  -- Without a client the server itself asks.
  abbrev pub lacks_admin : Option Member → Bool
  lacks_admin none = false
  lacks_admin (some ci) = not ci.local && ltb ci.privilege priv_admin

  abbrev pub lacks_privilege : Option Member → Bool
  lacks_privilege none = false
  lacks_privilege (some ci) = not (may_ask ci)

  unfoldable pub setbotlimit : Option Member → ℤ → Bots M → Bots M
  setbotlimit ci limit s =
      let n = clamp_limit limit in
      if lacks_admin ci then s else tell (limit_is n) (record s { botlimit = n; dorefresh = true })

  unfoldable pub setbotbalance : Option Member → Bool → Bots M → Bots M
  setbotbalance ci balance s =
      if lacks_privilege ci
      then s
      else tell (balance_is balance) (record s { botbalance = balance; dorefresh = true })

  unfoldable pub someone_may_ask : List Member → Bool
  someone_may_ask [] = false
  someone_may_ask (ci ∷ cs) = may_ask ci || someone_may_ask cs

  abbrev pub equal_bool : Bool → Bool → Bool
  equal_bool true b = b
  equal_bool false b = not b

  -- `serverbotbalance` is the variable of the configuration.
  pub changemap : Bool → Bots M → Bots M
  changemap serverbotbalance s =
      let stale = record s { dorefresh = true } in
      if someone_may_ask s.clients || equal_bool s.botbalance serverbotbalance
      then stale
      else setbotbalance none serverbotbalance stale

  pub addclient : Member → Bots M → Bots M
  addclient ci s = if ci.is_ai then s else record s { dorefresh = true }

  pub changeteam : Member → Bots M → Bots M
  changeteam ci s = if ci.is_ai then s else record s { dorefresh = true }
