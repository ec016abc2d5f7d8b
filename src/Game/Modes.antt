-- ===== src/Game/Modes.antt =====
-- The table of game modes of fpsgame/game.h and the `m_...` macros over it.
pub mod Flags
pub mod Laws
use Prim.Native.Nat.{bit_and, bit_or}
use Prim.Native.String.{String}
use mathlib.Core.Bool.{not}
use spaghettimod.Prelude.{ℕ, ◌+◌, ◌-◌, Bool, ◌&&◌, List, [], ◌∷◌, ◌==◌, get_or, length}
use spaghettimod.Prelude.Int.{ℤ, pos, negsuc, leb_ℤ, ltb_ℤ}

-- `gamemodeinfo` without its help text.
pub record GameModeInfo : Type 0 where
  pub name : String
  pub flags : ℕ

infixl 60 ◌∣◌
abbrev ◌∣◌ : ℕ → ℕ → ℕ
a ∣ b = bit_or a b

abbrev mode : String → ℕ → GameModeInfo
mode name flags = record { name = name; flags = flags }

abbrev pub gamemodes : List GameModeInfo
gamemodes =
    mode "SP" (Flags.local ∣ Flags.classicsp)
    ∷ mode "DMSP" (Flags.local ∣ Flags.dmsp)
    ∷ mode "demo" (Flags.demo ∣ Flags.local)
    ∷ mode "ffa" Flags.lobby
    ∷ mode "coop edit" Flags.edit
    ∷ mode "teamplay" Flags.team
    ∷ mode "instagib" (Flags.noitems ∣ Flags.insta)
    ∷ mode "insta team" (Flags.noitems ∣ Flags.insta ∣ Flags.team)
    ∷ mode "efficiency" (Flags.noitems ∣ Flags.efficiency)
    ∷ mode "effic team" (Flags.noitems ∣ Flags.efficiency ∣ Flags.team)
    ∷ mode "tactics" (Flags.noitems ∣ Flags.tactics)
    ∷ mode "tac team" (Flags.noitems ∣ Flags.tactics ∣ Flags.team)
    ∷ mode "capture" (Flags.noammo ∣ Flags.tactics ∣ Flags.capture ∣ Flags.team)
    ∷ mode "regen capture" (Flags.noitems ∣ Flags.capture ∣ Flags.regen ∣ Flags.team)
    ∷ mode "ctf" (Flags.ctf ∣ Flags.team)
    ∷ mode "insta ctf" (Flags.noitems ∣ Flags.insta ∣ Flags.ctf ∣ Flags.team)
    ∷ mode "protect" (Flags.ctf ∣ Flags.protect ∣ Flags.team)
    ∷ mode "insta protect" (Flags.noitems ∣ Flags.insta ∣ Flags.ctf ∣ Flags.protect ∣ Flags.team)
    ∷ mode "hold" (Flags.ctf ∣ Flags.hold ∣ Flags.team)
    ∷ mode "insta hold" (Flags.noitems ∣ Flags.insta ∣ Flags.ctf ∣ Flags.hold ∣ Flags.team)
    ∷ mode "effic ctf" (Flags.noitems ∣ Flags.efficiency ∣ Flags.ctf ∣ Flags.team)
    ∷ mode "effic protect"
        (Flags.noitems ∣ Flags.efficiency ∣ Flags.ctf ∣ Flags.protect ∣ Flags.team)
    ∷ mode "effic hold" (Flags.noitems ∣ Flags.efficiency ∣ Flags.ctf ∣ Flags.hold ∣ Flags.team)
    ∷ mode "collect" (Flags.collect ∣ Flags.team)
    ∷ mode "insta collect" (Flags.noitems ∣ Flags.insta ∣ Flags.collect ∣ Flags.team)
    ∷ mode "effic collect" (Flags.noitems ∣ Flags.efficiency ∣ Flags.collect ∣ Flags.team)
    ∷ []

-- STARTGAMEMODE is -3.
unfoldable pub m_valid : ℤ → Bool
m_valid m = leb_ℤ (negsuc 2) m && ltb_ℤ m (pos (length gamemodes - 3))

-- `(mode) - STARTGAMEMODE` of a valid mode.
abbrev pub mode_index : ℤ → ℕ
mode_index (pos n) = n + 3
mode_index (negsuc n) = 2 - n

abbrev mode_flags : ℤ → ℕ
mode_flags m = (get_or gamemodes (mode_index m) (mode "" 0)).flags

unfoldable pub m_check : ℤ → ℕ → Bool
unfolding m_valid
m_check m flag = m_valid m && not (bit_and (mode_flags m) flag == 0)

unfoldable pub m_checknot : ℤ → ℕ → Bool
unfolding m_valid
m_checknot m flag = m_valid m && bit_and (mode_flags m) flag == 0

unfoldable pub m_checkall : ℤ → ℕ → Bool
unfolding m_valid
m_checkall m flag = m_valid m && bit_and (mode_flags m) flag == flag

unfoldable pub m_checkonly : ℤ → ℕ → ℕ → Bool
unfolding m_valid
m_checkonly m flag exclude = m_valid m && bit_and (mode_flags m) (flag ∣ exclude) == flag

unfoldable pub m_capture_only : ℤ → Bool
unfolding m_checkonly
m_capture_only m = m_checkonly m Flags.capture Flags.regen

unfoldable pub m_ctf_only : ℤ → Bool
unfolding m_checkonly
m_ctf_only m = m_checkonly m Flags.ctf (Flags.protect ∣ Flags.hold)

unfoldable pub m_noitems : ℤ → Bool
unfolding m_check
m_noitems m = m_check m Flags.noitems

unfoldable pub m_noammo : ℤ → Bool
unfolding m_check
m_noammo m = m_check m (Flags.noammo ∣ Flags.noitems)

unfoldable pub m_insta : ℤ → Bool
unfolding m_check
m_insta m = m_check m Flags.insta

unfoldable pub m_tactics : ℤ → Bool
unfolding m_check
m_tactics m = m_check m Flags.tactics

unfoldable pub m_efficiency : ℤ → Bool
unfolding m_check
m_efficiency m = m_check m Flags.efficiency

unfoldable pub m_capture : ℤ → Bool
unfolding m_check
m_capture m = m_check m Flags.capture

unfoldable pub m_regencapture : ℤ → Bool
unfolding m_checkall
m_regencapture m = m_checkall m (Flags.capture ∣ Flags.regen)

unfoldable pub m_ctf : ℤ → Bool
unfolding m_check
m_ctf m = m_check m Flags.ctf

unfoldable pub m_protect : ℤ → Bool
unfolding m_checkall
m_protect m = m_checkall m (Flags.ctf ∣ Flags.protect)

unfoldable pub m_hold : ℤ → Bool
unfolding m_checkall
m_hold m = m_checkall m (Flags.ctf ∣ Flags.hold)

unfoldable pub m_collect : ℤ → Bool
unfolding m_check
m_collect m = m_check m Flags.collect

unfoldable pub m_teammode : ℤ → Bool
unfolding m_check
m_teammode m = m_check m Flags.team

unfoldable pub m_demo : ℤ → Bool
unfolding m_check
m_demo m = m_check m Flags.demo

unfoldable pub m_edit : ℤ → Bool
unfolding m_check
m_edit m = m_check m Flags.edit

unfoldable pub m_timed : ℤ → Bool
unfolding m_checknot
m_timed m = m_checknot m (Flags.demo ∣ Flags.edit ∣ Flags.local)

unfoldable pub m_botmode : ℤ → Bool
unfolding m_checknot
m_botmode m = m_checknot m (Flags.demo ∣ Flags.local)

unfoldable pub m_mp : ℤ → Bool
unfolding m_checknot
m_mp m = m_checknot m Flags.local

unfoldable pub m_sp : ℤ → Bool
unfolding m_check
m_sp m = m_check m (Flags.dmsp ∣ Flags.classicsp)

unfoldable pub m_dmsp : ℤ → Bool
unfolding m_check
m_dmsp m = m_check m Flags.dmsp
