-- ===== src/Admission/Door.antt =====
-- Who is let in (fpsgame/server.cpp, with `ipmask::check` of shared/tools.h). The check of a
-- password is cryptography, and the address of a client the engine's answer: both are parameters.
use Prim.Native.Nat.{bit_and}
use mathlib.Core.Bool.{not}
use spaghettimod.Prelude.{
  ℕ, Bool, true, false, ◌&&◌, ◌||◌, List, [], ◌∷◌, ◌++◌, leb, ◌==◌, if◌then◌else◌,
}
use spaghettimod.Prelude.Int.{ℤ, negsuc, leb_ℤ, pos}
use spaghettimod.Game.Names.{Name, nonempty}
use spaghettimod.Game.Modes.{m_mp}
use spaghettimod.Bots.Member.{Member}
use spaghettimod.Bots.Ticks.{numclients, priv_admin}
use spaghettimod.Admission.Bans.{BanLists, is_banned}

pub record IpMask : Type 0 where
  pub ip : ℕ
  pub mask : ℕ

-- `ipmask::check`
unfoldable pub in_mask : IpMask → ℕ → Bool
in_mask m host = bit_and host m.mask == m.ip

-- `banlist::check`
unfoldable pub in_list : List IpMask → ℕ → Bool
in_list [] ip = false
in_list (m ∷ ms) ip = in_mask m ip || in_list ms ip

-- Why a client is turned away, `DISC_...`.
pub data Disc : Type 0 where
  none_disc local_disc ip_ban private_disc max_clients password_disc : Disc

-- `MM_PRIVATE`
abbrev pub mm_private : ℤ
mm_private = pos 3

-- What the door knows.
pub record Door : Type 0 where
  pub gamemode : ℤ
  pub mastermode : ℤ
  pub maxclients : ℕ
  pub serverpass : Name
  pub adminpass : Name
  pub clients : List Member
  pub lists : BanLists
  pub ipbans : List IpMask
  pub gbans : List IpMask

unfoldable pub checkbans : Door → ℕ → Bool
checkbans s ip = is_banned s.lists.banned ip || in_list s.ipbans ip || in_list s.gbans ip

-- `allowedips.find(ip) >= 0`
unfoldable pub is_allowed : List ℕ → ℕ → Bool
is_allowed [] ip = false
is_allowed (x ∷ xs) ip = x == ip || is_allowed xs ip

module _ (getclientip : ℤ → ℕ) (checkpassword : Member → Name → Name → Bool) where
  -- The numbers that `verifybans` disconnects, the last client first.
  unfoldable pub verifybans : Door → List Member → List ℤ
  verifybans s [] = []
  verifybans s (ci ∷ cs) =
      verifybans s cs
      ++ (if ci.is_ai || ci.local || leb priv_admin ci.privilege
          then []
          else if checkbans s (getclientip ci.clientnum)
          then ci.clientnum ∷ []
          else [])

  unfoldable pub allowconnect : Door → Member → Name → Disc
  allowconnect s ci pwd =
      let ip = getclientip ci.clientnum in
      if ci.local
      then Disc.none_disc
      else if not (m_mp s.gamemode)
      then Disc.local_disc
      else if nonempty s.serverpass
      then (if not (checkpassword ci s.serverpass pwd) then Disc.password_disc else Disc.none_disc)
      else if nonempty s.adminpass && checkpassword ci s.adminpass pwd
      then Disc.none_disc
      else if leb s.maxclients (numclients s.clients (negsuc 0) false true false)
      then Disc.max_clients
      else if checkbans s ip
      then Disc.ip_ban
      else if leb_ℤ mm_private s.mastermode && not (is_allowed s.lists.allowed ip)
      then Disc.private_disc
      else Disc.none_disc
