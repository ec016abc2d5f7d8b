-- ===== src/Bots/Assign/Owners.antt =====
-- The lists of bots against the map of owners: who lists a bot is who owns it.
use spaghettimod.Prelude.{◌≡◌, ◌≢◌, Bool, false, ◌&&◌, Option, none, some, List, if◌then◌else◌}
use spaghettimod.Prelude.Int.{ℤ, eqb_ℤ}
use spaghettimod.Bots.Member.{Member, find, has}

abbrev pub listed : Option Member → ℤ → Bool
listed none b = false
listed (some c) b = has c.bots b

abbrev pub owner_is : Option Member → Option Member → ℤ → Bool
owner_is none d n = false
owner_is (some c) none n = false
owner_is (some c) (some d) n = d.is_ai && eqb_ℤ d.ownernum n

-- The client `n` has the bot `b` in its list.
unfoldable pub lists : List Member → ℤ → ℤ → Bool
lists cs n b = listed (find cs n) b

-- The bot `b` has the owner `n`, which is in the game. People own themselves, which does not count.
unfoldable pub owns : List Member → ℤ → ℤ → Bool
owns cs n b = owner_is (find cs n) (find cs b) n

-- The map of owners, of which the lists are a representation: who has which bot.
abbrev pub Owners : Type 0
Owners = ℤ → ℤ → Bool

abbrev pub is_owner : Option ℤ → ℤ → Bool
is_owner none n = false
is_owner (some o) n = eqb_ℤ o n

unfoldable pub assign : ℤ → Option ℤ → Owners → Owners
assign bot owner w n b = if eqb_ℤ b bot then is_owner owner n else w n b

-- Who may become the owner of a bot: a client in the game that is not its owner.
abbrev pub CanOwn : List Member → Member → Option ℤ → Type 0
CanOwn cs ci none = Unit
CanOwn cs ci (some o) = (find cs o ≢ none) × (ci.ownernum ≢ o)

-- The lists and the owners of a state are those of the map `w`.
pub record Shows (w : Owners) (cs : List Member) : Type 0 where
  pub by_lists : (n b : ℤ) → lists cs n b ≡ w n b
  pub by_owners : (n b : ℤ) → owns cs n b ≡ w n b
