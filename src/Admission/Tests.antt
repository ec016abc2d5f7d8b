-- ===== src/Admission/Tests.antt =====
-- Two bans, and a client with two team kills.
use spaghettimod.Prelude.{ℕ, ◌<◌, ◌≡◌, ◌^◌, ◌-◌, refl, true, false, [], ◌∷◌, arith, length, get_or}
use spaghettimod.Prelude.Int.{pos, ◌+ℤ◌}
use spaghettimod.Game.Modes.{m_timed}
use spaghettimod.Admission.Bans.{addban, insert_ban, end_bans, is_banned}
use spaghettimod.Admission.Bans.History.{Log, Step, Reach, start, lasts, bans_last}
use spaghettimod.Game.Names.{name_of}
use spaghettimod.Bots.Samples.{person}
use spaghettimod.Admission.Teamkills.{
  KickRule, Court, no_kills, choose_rule, match_mode, checkteamkills,
}
use spaghettimod.Admission.Teamkills.Limit.{checkteamkills_limits}

-- A long ban, and then a shorter one.
abbrev one_ban : Log
one_ban = record start {
  made = record { time = 10; expire = 510; ip = 7 } ∷ [];
  lists = addban 10 7 500 start.lists;
}

abbrev two_bans : Log
two_bans = record one_ban {
  made = record { time = 20; expire = 120; ip = 8 } ∷ one_ban.made;
  lists = addban 20 8 100 one_ban.lists;
}

two_bans-Reach : Reach start two_bans
two_bans-Reach =
    Reach.next (Reach.next Reach.here (Step.ban start 10 7 500)) (Step.ban one_ban 20 8 100)

bans_last_example : is_banned (end_bans 200 two_bans.lists.banned) 8 ≡ lasts 200 two_bans.made 8
bans_last_example = bans_last two_bans 200 8 two_bans-Reach (omega arith)

-- The shorter ban has ended, the other has not.
is_banned-two_bans :
    (is_banned (end_bans 200 two_bans.lists.banned) 8 ≡ false)
    × (is_banned (end_bans 200 two_bans.lists.banned) 7 ≡ true)
unfolding is_banned end_bans addban insert_ban
is_banned-two_bans = (refl, refl)

-- Two team kills lead to a kick in every mode.
abbrev twice : KickRule
twice = record { modes = 2 ^ 20 - 1; limit = 2; ban = 60000 }

abbrev court : Court
court = record {
  teamkills = record { ip = 7; teamkills = 2 } ∷ record { ip = 8; teamkills = 1 } ∷ [];
  shouldcheckteamkills = true;
  lists = record { allowed = []; banned = [] };
  disconnected = [];
  clients = person 3 [] (name_of "evil") ∷ [];
}

checkteamkills_limits_example :
    ((checkteamkills (λ n. 7) (pos 2) 1000 (twice ∷ []) court).shouldcheckteamkills ≡ false)
    × ((i : ℕ)
        → i < length (checkteamkills (λ n. 7) (pos 2) 1000 (twice ∷ []) court).teamkills
        → (get_or
            (checkteamkills (λ n. 7) (pos 2) 1000 (twice ∷ []) court).teamkills
            i
            no_kills).teamkills
          < 2)
unfolding m_timed choose_rule match_mode ◌+ℤ◌
checkteamkills_limits_example =
    checkteamkills_limits (λ n. 7) (pos 2) 1000 (twice ∷ []) twice court refl refl
