-- ===== src/Game/World.antt =====
-- What the game modes see of the server (fpsgame/server.cpp): the clients, the clock and the limit
-- of the game, the random numbers, and the messages sent to all clients, oldest first.
-- A hook of the Lua scripts that a mode calls is taken to be unset.
use Prim.Native.Nat.{min, max}
use spaghettimod.Prelude.{
  ℕ, ◌+◌, Bool, true, false, ◌&&◌, List, [], ◌∷◌, ◌++◌, Option, none, some, leb, ◌==◌,
  if◌then◌else◌,
}
use spaghettimod.Prelude.Int.{ℤ, eqb_ℤ}
use spaghettimod.Game.Names.{Name, same_name}
use spaghettimod.Game.Modes.{m_teammode}
use spaghettimod.Game.Geometry.{Vec}
use spaghettimod.Game.Player.{FpsState}
use spaghettimod.Game.Random.{Rng, rnd}

-- `CS_...`
pub data LifeState : Type 0 where
  alive dead spawning lagged editing spectator : LifeState

abbrev pub is_alive : LifeState → Bool
is_alive alive = true
is_alive _ = false

abbrev pub is_spectator : LifeState → Bool
is_spectator spectator = true
is_spectator _ = false

-- The fields of `clientinfo` and its `gamestate` that the game modes use. `flags` counts the
-- scores of the client, `tokens` the skulls that it carries.
pub record Client (F : Type 0) : Type 0 where
  pub clientnum : ℤ
  pub team : Name
  pub gameclip : Bool
  pub life : LifeState
  pub o : Vec F
  pub lastdeath : ℕ
  pub flags : ℕ
  pub tokens : ℕ
  pub player : FpsState

-- The messages of the game modes, with what they carry.
pub data Msg : Type 0 where
  take_flag : ℤ → ℕ → ℕ → Msg
  drop_flag : ℤ → ℕ → ℕ → Vec ℤ → Msg
  return_flag : ℤ → ℕ → ℕ → Msg
  reset_flag : ℕ → ℕ → ℤ → ℤ → ℤ → Msg
  invis_flag : ℕ → ℕ → Msg
  score_flag : ℤ → Option (ℕ × ℕ) → ℕ × ℕ × ℤ → ℕ × ℤ × ℕ → Msg
  expire_tokens : List ℕ → Msg
  drop_tokens : ℤ → Vec ℤ → List (ℕ × ℤ × ℕ) → Msg
  deposit_tokens : ℤ → ℕ → ℕ → ℕ × ℤ × ℕ → Msg
  steal_tokens : ℤ → ℕ × ℕ → ℤ × ℤ → Vec ℤ → ℕ × ℕ → Msg
  take_token : ℤ → ℤ → ℕ → Msg
  base_info : ℕ → Name × Name → ℤ × ℕ → Msg
  base_score : ℤ → Name → ℤ → Msg
  base_regen : ℤ → ℤ × ℕ → ℕ × ℕ → Msg
  bases : List (ℕ × Name × Name × ℤ × ℕ) → Msg
  rep_ammo : ℤ → ℕ → Msg
  time_up : ℕ → Msg
  game_speed : ℕ → Msg

-- What does not change while a message or a tick is handled.
pub record Env : Type 0 where
  pub gamemode : ℤ
  pub lastmillis : ℕ
  pub gamemillis : ℕ
  pub curtime : ℕ
  pub ctftkpenalty : Bool

pub record World (F : Type 0) : Type 0 where
  pub clients : List (Client F)
  pub gamelimit : ℕ
  pub interm : ℕ
  pub gamespeed : ℕ
  pub rng : Rng
  pub sent : List Msg

-- An entity of the map.
pub record Entity (F : Type 0) : Type 0 where
  pub type : ℕ
  pub attr1 : ℤ
  pub attr2 : ℤ
  pub o : Vec F

abbrev pub isteam : Env → Name → Name → Bool
isteam env a b = m_teammode env.gamemode && same_name a b

module _ {F : Type 0} where
  abbrev pub send : Msg → World F → World F
  send m w = record w { sent = w.sent ++ (m ∷ []) }

  -- `getinfo`
  unfoldable pub getinfo : List (Client F) → ℤ → Option (Client F)
  getinfo [] cn = none
  getinfo (c ∷ cs) cn = if eqb_ℤ c.clientnum cn then some c else getinfo cs cn

  -- A change of a client's fields through its pointer. Client numbers are distinct.
  abbrev pub update_client : List (Client F) → ℤ → (Client F → Client F) → List (Client F)
  update_client [] cn change = []
  update_client (c ∷ cs) cn change =
      (if eqb_ℤ c.clientnum cn then change c else c) ∷ update_client cs cn change

  abbrev pub change_client : World F → ℤ → (Client F → Client F) → World F
  change_client w cn change = record w { clients = update_client w.clients cn change }

  unfoldable pub changegamespeed : ℕ → World F → World F
  changegamespeed val w =
      let speed = max 10 (min val 1000) in
      if w.gamespeed == speed then w else send (game_speed speed) (record w { gamespeed = speed })

  -- `startintermission`, with `checkintermission(true)`.
  unfoldable pub startintermission : Env → World F → World F
  startintermission env w =
      let limited = record w { gamelimit = min w.gamelimit env.gamemillis } in
      if leb limited.gamelimit env.gamemillis && w.interm == 0
      then record (changegamespeed 100 (send (time_up 0) limited)) {
        interm = env.gamemillis + 10000;
      }
      else limited

  unfoldable pub draw : ℕ → World F → ℕ × World F
  draw x w = let (n, r) = rnd x w.rng in (n, record w { rng = r })
