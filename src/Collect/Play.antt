-- ===== src/Collect/Play.antt =====
-- Dropping, taking, depositing and stealing skulls: the members of `collectservmode` that run during
-- a game.
pub mod Expire
pub mod Ids
pub mod Taken
pub mod Brought
use mathlib.Core.Bool.{not}
use spaghettimod.Prelude.{
  ℕ, zero, suc, ◌+◌, ◌-◌, ◌*◌, ◌/◌, ◌^◌, Bool, true, false, ◌&&◌, ◌||◌, List, [], ◌∷◌, ◌++◌, Option,
  none, some, ltb, leb, ◌==◌, if◌then◌else◌, length, get_or, modify,
}
use spaghettimod.Prelude.Int.{ℤ, pos, negsuc, eqb_ℤ, sub_ℕ, ltb_ℤ, leb_ℤ}
use spaghettimod.Game.Names.{nonempty}
use spaghettimod.Game.Geometry.{Floats, Vec, quantized}
use spaghettimod.Game.World.{
  World, Client, Env, Msg, is_alive, isteam, change_client, startintermission, draw,
}
use spaghettimod.Collect.Token.{Token, findtoken, sweep, int_min}
use spaghettimod.Collect.State.{
  Collect, Base, announce, collectteambase, has_base_team, totalscore, addscore, new_base,
  tokenlimit, unownedtokenlimit, scorelimit, expiretokentime, stealtokentime,
}

-- `if(++nexttoken < 0) nexttoken = 1;`
abbrev pub next_id : ℕ → ℕ
next_id n = if n + 1 == 2 ^ 31 then 1 else n + 1

-- How many of a client's skulls, and of its enemies' skulls, are kept so far.
abbrev pub Counts : Type 0
Counts = ℕ × ℕ

module _ {F : Type 0} (fl : Floats F) (env : Env) where
  -- `t.team == team ? ++totalfriendly > limit : ++totalenemy > limit`
  abbrev pub over_limit : ℕ → ℕ → Counts → Token F → Bool × Counts
  over_limit limit team (friendly, enemy) t =
      if eqb_ℤ t.team (pos team)
      then (ltb limit (friendly + 1), (friendly + 1, enemy))
      else (ltb limit (enemy + 1), (friendly, enemy + 1))

  unfoldable pub droptoken : Vec F → ℕ → ℤ → ℕ → ℤ → Collect F → Token F × Collect F
  droptoken o yaw team droptime dropper s =
      let t : Token F = record {
        id = next_id s.nexttoken;
        team = team;
        droptime = droptime;
        o = o;
        yaw = yaw;
        dropper = dropper;
      } in
      (t, record s { tokens = s.tokens ++ (t ∷ []); nexttoken = next_id s.nexttoken })

  -- The visit of `droptokens`: the client's own earlier drops beyond the limit go.
  abbrev pub visit_drops : Client F → Counts → Token F → Bool × Token F × Counts
  visit_drops ci counts t =
      let (over, counted) = over_limit tokenlimit (collectteambase ci.team) counts t in
      if eqb_ℤ t.dropper ci.clientnum then (over, t, counted) else (false, t, counts)

  -- `loopi(numdrops)`: `left` drops are left, the next has the index `i`.
  unfoldable pub drop_loop :
      Client F → ℕ → ℕ → ℕ → ℕ → List (ℕ × ℤ × ℕ) → Collect F → List (ℕ × ℤ × ℕ) × Collect F
  unfolding droptoken
  drop_loop ci numdrops yaw zero i dropped s = (dropped, s)
  drop_loop ci numdrops yaw (suc left) i dropped s =
      let team = collectteambase ci.team in
      let (t, s1) =
        droptoken ci.o (yaw + i * 360 / numdrops) (if i == 0 then pos team else sub_ℕ 0 team)
          env.lastmillis ci.clientnum s in
      drop_loop ci numdrops yaw left (suc i) (dropped ++ ((t.id, t.team, t.yaw) ∷ [])) s1

  abbrev pub no_tokens : ℤ → Collect F → Collect F
  no_tokens cn s = record s { world = change_client s.world cn (λ c. record c { tokens = 0 }) }

  -- `if(expired) ...`: the ids that went are announced.
  abbrev pub announce_expired : List ℕ → Collect F → Collect F
  announce_expired [] s = s
  announce_expired (id ∷ ids) s = announce (Msg.expire_tokens (id ∷ ids)) s

  unfoldable pub droptokens : Client F → Bool → Collect F → Collect F
  unfolding sweep drop_loop
  droptokens ci penalty s =
      let lost = if penalty then 0 else ci.tokens in
      let (expired, kept) = sweep fl (visit_drops ci) (length s.tokens) (1, lost) [] s.tokens in
      let s1 = announce_expired expired (record s { tokens = kept }) in
      let (yaw, w) = draw 360 s1.world in
      let (dropped, s2) = drop_loop ci (1 + lost) yaw (1 + lost) 0 [] (record s1 { world = w }) in
      if s.notgotbases
      then s
      else no_tokens ci.clientnum
          (announce (Msg.drop_tokens ci.clientnum (quantized fl ci.o) dropped) s2)

  -- The visit of `leavegame`: the drops of clients that left, beyond a higher limit, go. The nested
  -- loop of the source goes on with the same counts.
  abbrev pub visit_unowned : Client F → Counts → Token F → Bool × Token F × Counts
  visit_unowned ci counts t =
      let (over, counted) = over_limit unownedtokenlimit (collectteambase ci.team) counts t in
      if eqb_ℤ t.dropper ci.clientnum
      then (over, record t { dropper = int_min }, counted)
      else (if ltb_ℤ int_min t.dropper then (false, t, counts) else (over, t, counted))

  unfoldable pub leavegame : Client F → Bool → Collect F → Collect F
  unfolding sweep
  leavegame ci disconnecting s =
      let s0 = no_tokens ci.clientnum s in
      let (expired, kept) = sweep fl (visit_unowned ci) (length s0.tokens) (0, 0) [] s0.tokens in
      if disconnecting then announce_expired expired (record s0 { tokens = kept }) else s0

  unfoldable pub died : Client F → Option (Client F) → Collect F → Collect F
  unfolding droptokens
  died ci none s = droptokens ci true s
  died ci (some actor) s = droptokens ci (isteam env actor.team ci.team) s

  abbrev pub base_at : Collect F → ℕ → Base F
  base_at s i = get_or s.bases i (new_base fl)

  abbrev pub steal_now : ℕ → Collect F → Collect F
  steal_now i s = record s {
    bases = modify s.bases i (λ b. record b { laststeal = env.gamemillis });
  }

  -- The client carries skulls: its team scores them.
  unfoldable pub bring : Client F → ℕ → Collect F → Collect F
  unfolding addscore collectteambase
  bring ci i s =
      let team = collectteambase ci.team in
      let flags = ci.flags + ci.tokens in
      let (score, s1) = addscore (pos team) (pos ci.tokens) (steal_now i s) in
      let s2 =
        announce (Msg.deposit_tokens ci.clientnum i ci.tokens (team, score, flags)) (record s1 {
          world = change_client s1.world ci.clientnum (λ c. record c { flags = flags });
        }) in
      let s3 = no_tokens ci.clientnum s2 in
      if leb_ℤ (pos scorelimit) score
      then record s3 { world = startintermission env s3.world }
      else s3

  -- The skulls that were stolen from base `i`.
  unfoldable pub stolen : ℕ → List (Token F) → ℕ
  stolen i [] = 0
  stolen i (t ∷ ts) = (if eqb_ℤ t.dropper (negsuc i) then 1 else 0) + stolen i ts

  -- The client carries none: a point of the base's team becomes a skull at the base.
  unfoldable pub steal : Client F → ℕ → Collect F → Collect F
  unfolding addscore totalscore collectteambase stolen droptoken
  steal ci i s =
      let b = base_at s i in
      let team = collectteambase ci.team in
      let (score, s1) = addscore b.team (negsuc 0) (steal_now i s) in
      let (yaw, w) = draw 360 s1.world in
      let (t, s2) =
        droptoken b.o yaw (pos team) env.lastmillis (negsuc i) (record s1 { world = w }) in
      if ltb env.gamemillis (b.laststeal + stealtokentime)
        || leb_ℤ (totalscore s b.team) (pos 0)
        || not (ltb (stolen i s.tokens) tokenlimit)
      then s
      else announce
          (Msg.steal_tokens ci.clientnum (team, i) (b.team, score) (quantized fl t.o) (t.id, t.yaw))
          s2

  unfoldable pub deposittokens : Client F → ℤ → Collect F → Collect F
  unfolding bring steal collectteambase
  deposittokens ci (negsuc n) s = s
  deposittokens ci (pos i) s =
      if s.notgotbases
        || not (ltb i (length s.bases))
        || not (is_alive ci.life)
        || not (nonempty ci.team)
        || not (has_base_team (base_at s i).team)
        || eqb_ℤ (base_at s i).team (pos (collectteambase ci.team))
      then s
      else (if ltb 0 ci.tokens then bring ci i s else steal ci i s)

  -- `t->team != team && (t->team > 0 || -t->team == team)`
  abbrev pub counts_for : ℕ → Token F → Bool
  counts_for team t =
      not (eqb_ℤ t.team (pos team)) && (ltb_ℤ (pos 0) t.team || eqb_ℤ t.team (sub_ℕ 0 team))

  unfoldable pub taketoken : Client F → ℤ → Collect F → Collect F
  unfolding findtoken collectteambase
  taketoken ci id s =
      let refuse = s.notgotbases || not (is_alive ci.life) || not (nonempty ci.team) in
      elim (findtoken s.tokens id) [
        | none ↦ s
        | some t ↦
            let counts = counts_for (collectteambase ci.team) t && ltb ci.tokens tokenlimit in
            let now = if counts then ci.tokens + 1 else ci.tokens in
            if refuse
            then s
            else announce (Msg.take_token ci.clientnum id now) (record s {
              world = change_client s.world ci.clientnum (λ c. record c { tokens = now });
            })
      ]

  -- The visit of `update`.
  abbrev pub visit_expired : Unit {0} → Token F → Bool × Token F × Unit {0}
  visit_expired u t = (leb (t.droptime + expiretokentime) env.lastmillis, t, u)

  unfoldable pub update : Collect F → Collect F
  unfolding sweep
  update s =
      let (expired, kept) = sweep fl visit_expired (length s.tokens) tt [] s.tokens in
      if leb s.world.gamelimit env.gamemillis || s.notgotbases
      then s
      else announce_expired expired (record s { tokens = kept })
