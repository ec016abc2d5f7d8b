-- ===== src/Bots/Assign.antt =====
-- Who owns which bot (fpsgame/aiman.h): the choice of an owner, and the moves between owners.
pub mod Owners
pub mod Moves
pub mod Least
pub mod Even
pub mod Loop
pub mod Leaving
pub mod Owning
pub mod Holder
pub mod Removal
use mathlib.Core.Bool.{not}
use spaghettimod.Prelude.{
  ℕ, zero, suc, ◌+◌, ◌-◌, Bool, true, false, ◌&&◌, ◌||◌, List, [], ◌∷◌, ◌++◌, Option, none, some,
  ltb, ◌==◌, if◌then◌else◌, length, get_elem?,
}
use spaghettimod.Prelude.Int.{ℤ, pos, negsuc, eqb_ℤ, nonneg}
use spaghettimod.Game.World.{is_spectator}
use spaghettimod.Bots.Member.{Member, Host, Bots, find, change_member, add_bot, drop_bot}

unfoldable pub validaiclient : Member → Bool
validaiclient ci =
    nonneg ci.clientnum
    && not ci.is_ai
    && (not (is_spectator ci.life) || ci.local || (not (ci.privilege == 0) && not ci.warned))

abbrev pub is_excluded : Option ℤ → Member → Bool
is_excluded none ci = false
is_excluded (some e) ci = eqb_ℤ ci.clientnum e

abbrev pub fewer : Option Member → Member → Option Member
fewer none ci = some ci
fewer (some l) ci = if ltb (length ci.bots) (length l.bots) then some ci else some l

abbrev pub more : Option Member → Member → Option Member
more none ci = some ci
more (some h) ci = if ltb (length h.bots) (length ci.bots) then some ci else some h

-- The choice after one more client.
abbrev pub consider : Option ℤ → Option Member → Member → Option Member
consider exclude least ci =
    if not (validaiclient ci) || is_excluded exclude ci then least else fewer least ci

unfoldable pub least_from : Option ℤ → Option Member → List Member → Option Member
least_from exclude least [] = least
least_from exclude least (ci ∷ cs) = least_from exclude (consider exclude least ci) cs

unfoldable pub findaiclient : List Member → Option ℤ → Option Member
findaiclient cs exclude = least_from exclude none cs

-- The loop of `reassignai`: the clients of the fewest and of the most bots.
unfoldable pub extremes :
    Option Member → Option Member → List Member → Option Member × Option Member
extremes lo hi [] = (lo, hi)
extremes lo hi (ci ∷ cs) =
    if not (validaiclient ci) then extremes lo hi cs else extremes (fewer lo ci) (more hi ci) cs

abbrev pub number : Option Member → Option ℤ
number none = none
number (some c) = some c.clientnum

abbrev pub find_bot : List Member → Option ℤ → Option Member
find_bot cs none = none
find_bot cs (some b) = find cs b

-- The bot `ci->bots[i]`.
abbrev pub bot_at : List Member → Member → ℕ → Option Member
bot_at cs ci i = find_bot cs (get_elem? ci.bots i)

-- What `ci` points to after the shift of a bot to another client. `getclientinfo` finds the owner
-- of the bot also when it is no longer in `clients`, as when it disconnects.
abbrev pub left_by : Option Member → Member → Member
left_by none ci = ci
left_by (some bot) ci = if eqb_ℤ bot.ownernum ci.clientnum then drop_bot bot.clientnum ci else ci

module _ {M : Type 0} (host : Host M) where
  -- The bot leaves the game mode, unless it is new there or has no owner.
  unfoldable pub leave_mode : Member → Bots M → Bots M
  leave_mode ci s =
      if nonneg ci.ownernum && ci.aireinit == 0
      then record s { mode = host.leavegame ci.clientnum s.mode }
      else s

  -- The bot leaves the list of its owner.
  unfoldable pub leave_owner : Member → Bots M → Bots M
  leave_owner ci s = change_member s ci.ownernum (drop_bot ci.clientnum)

  -- The bot's new owner, or none.
  unfoldable pub join_owner : Member → Option ℤ → Bots M → Bots M
  join_owner ci none s =
      change_member s ci.clientnum (λ c. record c { aireinit = 0; ownernum = negsuc 0 })
  join_owner ci (some o) s =
      if eqb_ℤ ci.ownernum o
      then s
      else change_member
          (change_member s ci.clientnum (λ c. record c { aireinit = 2; ownernum = o })) o
          (add_bot ci.clientnum)

  unfoldable pub shiftai : Member → Option ℤ → Bots M → Bots M
  shiftai ci owner s = record (join_owner ci owner (leave_owner ci (leave_mode ci s))) {
    dorefresh = true;
  }

  -- `shiftai(ci->bots[i], owner)`
  abbrev pub shift_found : Option Member → Option ℤ → Bots M → Bots M
  shift_found none owner s = s
  shift_found (some bot) owner s = shiftai bot owner s

  unfoldable pub shift_nth : Member → ℕ → Option ℤ → Bots M → Bots M
  shift_nth ci i owner s = shift_found (bot_at s.clients ci i) owner s

  -- The loop of `removeai`, with `k` rounds left, and what `ci` points to after it.
  unfoldable pub remove_from : Member → ℕ → Bots M → Member × Bots M
  remove_from ci zero s = (ci, s)
  remove_from ci (suc k) s =
      remove_from (left_by (bot_at s.clients ci k) ci) k
        (shift_nth ci k (number (findaiclient s.clients (some ci.clientnum))) s)

  -- The client `ci`, which may have left `clients` already.
  unfoldable pub removeai : Member → Bots M → Member × Bots M
  removeai ci s = remove_from ci (length ci.bots) s

  abbrev pub even_out : Option Member × Option Member → Bots M → Bool × Bots M
  even_out (some lo, some hi) s =
      if ltb (length lo.bots + 1) (length hi.bots)
      then (true, shift_nth hi (length hi.bots - 1) (some lo.clientnum) s)
      else (false, s)
  even_out _ s = (false, s)

  -- The result, and the state after it.
  unfoldable pub reassignai : Bots M → Bool × Bots M
  reassignai s = even_out (extremes none none s.clients) s

  -- `while(reassignai());` with fuel for each call; `none` means that the fuel ran out.
  unfoldable pub reassign_all : ℕ → Bots M → Option (Bots M)
  reassign_all zero s = none
  reassign_all (suc fuel) s =
      let (again, s') = reassignai s in
      let rest = reassign_all fuel s' in if again then rest else some s'
