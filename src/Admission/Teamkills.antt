-- ===== src/Admission/Teamkills.antt =====
-- Kicks for team kills (fpsgame/server.cpp). The address of a client is the engine's answer. Of
-- `clientdisconnect` this has the change of `clients` and `noclients`; a disconnected client is noted
-- by its number, in the order of the calls.
pub mod Limit
use Prim.Native.Nat.{bit_and}
use mathlib.Core.Bool.{not}
use spaghettimod.Prelude.{
  ℕ, zero, suc, ◌+◌, ◌-◌, ◌^◌, Bool, true, false, ◌&&◌, ◌||◌, List, [], ◌∷◌, ◌++◌, Option, none,
  some, ltb, leb, ◌==◌, if◌then◌else◌, length, get_or, set, take,
}
use spaghettimod.Prelude.Int.{ℤ, pos, negsuc, eqb_ℤ, pos_part, ◌+ℤ◌}
use spaghettimod.Game.Modes.{m_timed}
use spaghettimod.Bots.Member.{Member}
use spaghettimod.Bots.Ticks.{priv_admin, numclients}
use spaghettimod.Admission.Bans.{BanLists, addban}

-- `teamkillkick`
pub record KickRule : Type 0 where
  pub modes : ℕ
  pub limit : ℕ
  pub ban : ℕ

-- `teamkillinfo`
pub record Teamkills : Type 0 where
  pub ip : ℕ
  pub teamkills : ℕ

-- The modes are numbered from STARTGAMEMODE, which is -3.
unfoldable pub match_mode : KickRule → ℤ → Bool
match_mode kick mode = not (bit_and kick.modes (2 ^ pos_part (mode +ℤ pos 3)) == 0)

unfoldable pub includes : KickRule → KickRule → Bool
includes kick tk = not (tk.modes == kick.modes) && bit_and tk.modes kick.modes == tk.modes

pub record Court : Type 0 where
  pub teamkills : List Teamkills
  pub shouldcheckteamkills : Bool
  pub lists : BanLists
  pub disconnected : List ℤ
  pub clients : List Member

unfoldable pub count_kills : ℕ → ℕ → List Teamkills → List Teamkills
count_kills ip n [] = record { ip = ip; teamkills = n } ∷ []
count_kills ip n (tk ∷ tks) =
    let rest = count_kills ip n tks in
    if tk.ip == ip then record tk { teamkills = tk.teamkills + n } ∷ tks else tk ∷ rest

abbrev pub is_bot : Option Member → Bool
is_bot none = false
is_bot (some victim) = victim.is_ai

abbrev pub no_kills : Teamkills
no_kills = record { ip = 0; teamkills = 0 }

-- `teamkills.removeunordered(i)`
abbrev pub drop_kills : List Teamkills → ℕ → List Teamkills
drop_kills tks i = let last = length tks - 1 in take last (set tks i (get_or tks last no_kills))

-- `clients.removeobj(ci)`
unfoldable pub remove_client : ℤ → List Member → List Member
remove_client n [] = []
remove_client n (c ∷ cs) =
    let rest = remove_client n cs in if eqb_ℤ c.clientnum n then rest else c ∷ rest

-- `bannedips.shrink(0)`, and `clearai`, which removes the bots, all that is left of the clients.
abbrev pub noclients : Court → Court
noclients s = record s { lists = record s.lists { banned = [] }; clients = [] }

-- `clientdisconnect`
unfoldable pub disconnect : ℤ → Court → Court
disconnect n s =
    let left = remove_client n s.clients in
    let gone = record s { clients = left; disconnected = s.disconnected ++ (n ∷ []) } in
    if numclients left (negsuc 0) false true false == 0 then noclients gone else gone

unfoldable pub disconnect_all : List ℤ → Court → Court
disconnect_all [] s = s
disconnect_all (n ∷ ns) s = disconnect_all ns (disconnect n s)

-- `getclientip` for a client number.
module _ (getclientip : ℤ → ℕ) (gamemode : ℤ) where
  unfoldable pub addteamkill : Member → Option Member → ℕ → Court → Court
  addteamkill actor victim n s =
      if not (m_timed gamemode)
        || actor.is_ai
        || actor.local
        || not (actor.privilege == 0)
        || is_bot victim
      then s
      else record s {
        shouldcheckteamkills = true;
        teamkills = count_kills (getclientip actor.clientnum) n s.teamkills;
      }

  -- Whether `kickclients` leaves a client alone; an actor comes with the privilege that it uses.
  unfoldable pub is_spared : Option (Member × ℕ) → Member → Bool
  is_spared actor c = c.is_ai || leb priv_admin c.privilege || c.local || protected actor
    where
      protected : Option (Member × ℕ) → Bool
      protected none = false
      protected (some (a, priv)) =
          (ltb priv c.privilege && not a.local) || eqb_ℤ c.clientnum a.clientnum

  -- The numbers that `kickclients` disconnects, the last client first.
  unfoldable pub kickclients : Option (Member × ℕ) → ℕ → List Member → List ℤ
  kickclients actor ip [] = []
  kickclients actor ip (c ∷ cs) =
      kickclients actor ip cs
      ++ (if not (is_spared actor c) && getclientip c.clientnum == ip then c.clientnum ∷ [] else [])

  -- The rule of the mode that no other rule of the mode is included in.
  unfoldable pub choose_rule : Option KickRule → List KickRule → Option KickRule
  choose_rule kick [] = kick
  choose_rule kick (k ∷ ks) =
      choose_rule (if match_mode k gamemode && narrower kick then some k else kick) ks
    where
      narrower : Option KickRule → Bool
      narrower none = true
      narrower (some chosen) = includes chosen k

  -- The kick of the address of the entry `i`.
  unfoldable pub punish : ℕ → KickRule → ℕ → Court → Court
  punish totalmillis kick i s =
      let tk = get_or s.teamkills i no_kills in
      let banned = record s {
        lists = if ltb 0 kick.ban then addban totalmillis tk.ip kick.ban s.lists else s.lists;
      } in
      record (disconnect_all (kickclients none tk.ip s.clients) banned) {
        teamkills = drop_kills s.teamkills i;
      }

  -- The loop of `checkteamkills`, with the entries below `k` left.
  unfoldable pub check_below : ℕ → KickRule → ℕ → Court → Court
  check_below totalmillis kick zero s = s
  check_below totalmillis kick (suc k) s = check_below totalmillis kick k (
      if leb kick.limit (get_or s.teamkills k no_kills).teamkills
      then punish totalmillis kick k s
      else s)

  abbrev pub check_with : ℕ → Option KickRule → Court → Court
  check_with totalmillis none s = s
  check_with totalmillis (some kick) s = check_below totalmillis kick (length s.teamkills) s

  unfoldable pub checkteamkills : ℕ → List KickRule → Court → Court
  checkteamkills totalmillis rules s =
      let kick = if m_timed gamemode then choose_rule none rules else none in
      record (check_with totalmillis kick s) { shouldcheckteamkills = false }
