-- ===== src/Bots/Member.antt =====
-- The state that fpsgame/aiman.h works on: the clients, people and bots alike, with the fields of
-- `clientinfo` that it uses. A pointer to a client is its number, and client numbers are distinct.
pub mod Store
pub mod Load
use spaghettimod.Prelude.{
  ℕ, ◌+◌, Bool, true, false, ◌&&◌, ◌||◌, List, [], ◌∷◌, ◌++◌, Option, none, some, if◌then◌else◌,
}
use spaghettimod.Prelude.Int.{ℤ, eqb_ℤ, nonneg}
use spaghettimod.Game.Names.{Name}
use spaghettimod.Game.World.{LifeState, is_spectator}
use spaghettimod.Game.Player.{FpsState}
use spaghettimod.Game.Random.{Rng}

-- `waiting` counts the entries of `events`; the rest of `gamestate` that `reassign` resets.
pub record Session : Type 0 where
  pub deadflush : ℕ
  pub lastspawn : ℤ
  pub lastshot : ℕ
  pub tokens : ℕ
  pub rockets : ℕ
  pub grenades : ℕ
  pub lifesequence : ℕ
  pub waiting : ℕ
  pub timesync : Bool
  pub lastevent : ℕ

pub record Member : Type 0 where
  pub clientnum : ℤ
  pub ownernum : ℤ
  pub name : Name
  pub team : Name
  pub playermodel : ℕ
  pub privilege : ℕ
  pub connected : Bool
  pub local : Bool
  pub warned : Bool
  pub is_ai : Bool
  pub skill : ℕ
  pub life : LifeState
  pub lasttimeplayed : ℕ
  pub bots : List ℤ
  pub aireinit : ℕ
  pub player : FpsState
  pub session : Session

-- The messages of this file, with what they carry.
pub data Note : Type 0 where
  set_team : ℤ → Name → Note
  cdis : ℤ → Note
  init_ai : ℤ → ℤ → ℕ → ℕ → Name × Name → Note
  spawn_state : ℤ → ℤ → ℕ → FpsState → Note
  resume : ℤ → LifeState → ℕ → FpsState → Note
  no_bot_made no_bot_removed : ℤ → Note
  limit_is : ℕ → Note
  balance_is : Bool → Note

-- What the bots code calls of the game mode (`smode`) and of `gamestate::spawnstate`. Without a
-- mode the first two change nothing.
pub record Host (M : Type 0) : Type 0 where
  pub leavegame : ℤ → M → M
  pub changeteam : ℤ → Name → Name → M → M
  pub spawn : FpsState → Rng → FpsState × Rng

-- `slots` is the vector `bots`, where a free slot is NULL.
pub record Bots (M : Type 0) : Type 0 where
  pub clients : List Member
  pub slots : List (Option ℤ)
  pub mode : M
  pub dorefresh : Bool
  pub botbalance : Bool
  pub botlimit : ℕ
  pub rng : Rng
  pub sent : List Note

-- `MAXCLIENTS`, the first number that is a bot's.
abbrev pub maxclients : ℕ
maxclients = 128

-- `MAXBOTS`
abbrev pub maxbots : ℕ
maxbots = 32

-- `getclientinfo`, for the numbers of clients in the game.
unfoldable pub find : List Member → ℤ → Option Member
find [] n = none
find (c ∷ cs) n = if eqb_ℤ c.clientnum n then some c else find cs n

-- A change of a client's fields through its pointer.
unfoldable pub change : List Member → ℤ → (Member → Member) → List Member
change [] n f = []
change (c ∷ cs) n f = (if eqb_ℤ c.clientnum n then f c else c) ∷ change cs n f

-- `find(x) >= 0` on a vector of pointers.
unfoldable pub has : List ℤ → ℤ → Bool
has [] b = false
has (x ∷ xs) b = eqb_ℤ x b || has xs b

-- `vector::removeobj`
unfoldable pub removeobj : List ℤ → ℤ → List ℤ
removeobj [] b = []
removeobj (x ∷ xs) b = let rest = removeobj xs b in if eqb_ℤ x b then rest else x ∷ rest

abbrev pub add_bot : ℤ → Member → Member
add_bot b c = record c { bots = c.bots ++ (b ∷ []) }

abbrev pub drop_bot : ℤ → Member → Member
drop_bot b c = record c { bots = removeobj c.bots b }

module _ {M : Type 0} where
  abbrev pub tell : Note → Bots M → Bots M
  tell m s = record s { sent = s.sent ++ (m ∷ []) }

  abbrev pub change_member : Bots M → ℤ → (Member → Member) → Bots M
  change_member s n f = record s { clients = change s.clients n f }
