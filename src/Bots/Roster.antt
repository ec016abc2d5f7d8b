-- ===== src/Bots/Roster.antt =====
-- The bots that are in the game (fpsgame/aiman.h): how they are added and removed, and what the
-- server does about them at each tick and at the players' requests. The hooks of the Lua scripts
-- are taken to be unset.
pub mod Slots
use Prim.Native.Nat.{min, max}
use mathlib.Core.Bool.{not}
use spaghettimod.Prelude.{
  ℕ, zero, suc, ◌+◌, ◌-◌, Bool, true, false, ◌&&◌, ◌||◌, List, [], ◌∷◌, ◌++◌, Option, none, some,
  ltb, leb, ◌==◌, if◌then◌else◌, length, get_elem?, set,
}
use spaghettimod.Prelude.Int.{ℤ, pos, negsuc, eqb_ℤ, nonneg, leb_ℤ, ltb_ℤ}
use spaghettimod.Game.Names.{Name, name_of, copystring}
use spaghettimod.Game.Modes.{m_teammode, m_botmode}
use spaghettimod.Game.World.{LifeState, Env, is_spectator, is_alive}
use spaghettimod.Game.Player.{FpsState, blue, respawn}
use spaghettimod.Game.Random.{rnd}
use spaghettimod.Bots.Member.{
  Session, Member, Note, cdis, init_ai, spawn_state, resume, no_bot_made, no_bot_removed, limit_is,
  balance_is, Host, Bots, find, removeobj, add_bot, drop_bot, tell, change_member, maxclients,
  maxbots,
}
use spaghettimod.Bots.Assign.{findaiclient, number, leave_mode, reassign_all}
use spaghettimod.Bots.Teams.{chooseteam, balanceteams}

-- `gamestate::respawn`
abbrev pub fresh_session : Session → Session
fresh_session s = record s { deadflush = 0; lastspawn = negsuc 0; lastshot = 0; tokens = 0 }

-- `clientinfo::reassign`
unfoldable pub reassign : Member → Member
reassign ci = record ci {
  player = respawn ci.player;
  session = record (fresh_session ci.session) {
    rockets = 0;
    grenades = 0;
    waiting = 0;
    timesync = false;
    lastevent = 0;
  };
}

-- Before the first `respawn`, which sets every field.
abbrev pub unset_player : FpsState
unset_player = record {
  health = pos 0;
  maxhealth = 100;
  armour = 0;
  armourtype = blue;
  quadmillis = 0;
  gunselect = 0;
  gunwait = 0;
  ammo = [];
}

abbrev pub is_owned : Option Member → Bool
is_owned none = false
is_owned (some ci) = nonneg ci.ownernum

-- The bot of the slot has an owner.
unfoldable pub slot_owned : List Member → Option ℤ → Bool
slot_owned cs none = false
slot_owned cs (some b) = is_owned (find cs b)

-- What the loop of `addai` finds: the first slot that is free or whose bot has no owner, and the
-- number of bots that have one.
unfoldable pub scan_slots : List Member → List (Option ℤ) → ℕ → Option ℕ × ℕ
scan_slots cs [] i = (none, 0)
scan_slots cs (slot ∷ slots) i =
    let (cn, numai) = scan_slots cs slots (suc i) in
    if slot_owned cs slot then (cn, numai + 1) else (some i, numai)

-- `limit >= 0 ? min(limit, MAXBOTS) : MAXBOTS`
abbrev pub max_ai : ℤ → ℕ
max_ai (pos limit) = min limit maxbots
max_ai (negsuc n) = maxbots

-- The bot of a slot.
abbrev pub find_slot : List Member → Option ℤ → Option Member
find_slot cs none = none
find_slot cs (some b) = find cs b

-- `clients.removeobj(ci)`
unfoldable pub remove_member : List Member → ℤ → List Member
remove_member [] n = []
remove_member (c ∷ cs) n =
    let rest = remove_member cs n in if eqb_ℤ c.clientnum n then rest else c ∷ rest

abbrev pub ownernum_of : Option Member → ℤ
ownernum_of none = negsuc 0
ownernum_of (some owner) = owner.clientnum

module _ {M : Type 0} (host : Host M) (env : Env) where
  -- `if(owner) owner->bots.add(ci)`
  abbrev pub add_to_owner : Option Member → ℤ → Bots M → Bots M
  add_to_owner none b s = s
  add_to_owner (some owner) b s = change_member s owner.clientnum (add_bot b)

  -- `skill <= 0 ? rnd(50) + 51 : clamp(skill, 1, 101)`
  unfoldable pub choose_skill : ℤ → Bots M → ℕ × Bots M
  choose_skill (pos zero) s = let (n, r) = rnd 50 s.rng in (n + 51, record s { rng = r })
  choose_skill (pos (suc n)) s = (max 1 (min (suc n) 101), s)
  choose_skill (negsuc k) s = let (n, r) = rnd 50 s.rng in (n + 51, record s { rng = r })

  -- A new bot, as `addai` fills it in.
  unfoldable pub new_bot : ℤ → ℤ → Name → ℕ → ℕ → Member
  new_bot clientnum ownernum team skill model = record {
    clientnum = clientnum;
    ownernum = ownernum;
    name = copystring 16 (name_of "bot");
    team = copystring 5 team;
    playermodel = model;
    privilege = 0;
    connected = true;
    local = false;
    warned = false;
    is_ai = true;
    skill = skill;
    life = LifeState.dead;
    lasttimeplayed = env.lastmillis;
    bots = [];
    aireinit = 2;
    player = respawn unset_player;
    session = record {
      deadflush = 0;
      lastspawn = negsuc 0;
      lastshot = 0;
      tokens = 0;
      rockets = 0;
      grenades = 0;
      lifesequence = 0;
      waiting = 0;
      timesync = false;
      lastevent = 0;
    };
  }

  -- The slot of a bot that was going to be removed gets an owner again.
  unfoldable pub reuse_bot : ℤ → Bots M → Bots M
  reuse_bot b s =
      let owner = findaiclient s.clients none in
      record (add_to_owner owner b
        (change_member s b (λ c. record c { ownernum = ownernum_of owner; aireinit = 2 }))) {
          dorefresh = true;
        }

  -- A new bot in the slot `cn`.
  unfoldable pub fill_slot : ℤ → ℕ → Bots M → Bots M
  fill_slot skill cn s =
      let b = pos (maxclients + cn) in
      let team = if m_teammode env.gamemode then chooseteam s.clients else [] in
      let owner = findaiclient s.clients none in
      let (chosen, s1) = choose_skill skill s in
      let (model, r) = rnd 128 s1.rng in
      let s2 = add_to_owner owner b (record s1 { slots = set s1.slots cn (some b); rng = r }) in
      record s2 {
        clients = s2.clients ++ (new_bot b (ownernum_of owner) team chosen model ∷ []);
        dorefresh = true;
      }

  abbrev pub use_slot : ℤ → ℕ → Option (Option ℤ) → Bots M → Bots M
  use_slot skill cn (some (some b)) s = reuse_bot b s
  use_slot skill cn _ s = fill_slot skill cn s

  abbrev pub add_at : ℤ → Option ℕ → Bots M → Bots M
  add_at skill (some cn) s = use_slot skill cn (get_elem? s.slots cn) s
  add_at skill none s =
      fill_slot skill (length s.slots) (record s { slots = s.slots ++ (none ∷ []) })

  unfoldable pub addai : ℤ → ℤ → Bots M → Bool × Bots M
  addai skill limit s =
      let (cn, numai) = scan_slots s.clients s.slots 0 in
      if leb (max_ai limit) numai then (false, s) else (true, add_at skill cn s)

  -- `ci->clientnum - MAXCLIENTS`, where it is a slot.
  unfoldable pub slot_of : List (Option ℤ) → ℤ → Option ℕ
  slot_of slots (negsuc n) = none
  slot_of slots (pos n) =
      if leb maxclients n && ltb (n - maxclients) (length slots)
      then some (n - maxclients)
      else none

  abbrev pub delete_at : Member → Option ℕ → Bots M → Bots M
  delete_at ci none s = s
  delete_at ci (some cn) s =
      let left = tell (cdis ci.clientnum) (leave_mode host ci s) in
      let unowned = change_member left ci.ownernum (drop_bot ci.clientnum) in
      record unowned {
        clients = remove_member unowned.clients ci.clientnum;
        slots = set unowned.slots cn none;
        dorefresh = true;
      }

  -- `deleteai(ci)`
  unfoldable pub delete_bot : Member → Bots M → Bots M
  delete_bot ci s = delete_at ci (slot_of s.slots ci.clientnum) s

  -- `deleteai()` over the slots in reverse: the last bot that has an owner.
  unfoldable pub last_owned : List Member → List (Option ℤ) → Option ℤ
  last_owned cs [] = none
  last_owned cs (slot ∷ slots) = elim (last_owned cs slots) [
    | some b ↦ some b
    | none ↦ if slot_owned cs slot then slot else none
  ]

  abbrev pub delete_found : Option Member → Bots M → Bool × Bots M
  delete_found none s = (false, s)
  delete_found (some ci) s = (true, delete_bot ci s)

  unfoldable pub deleteai : Bots M → Bool × Bots M
  deleteai s = delete_found (find_slot s.clients (last_owned s.clients s.slots)) s
