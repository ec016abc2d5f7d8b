-- ===== src/Admission/Teamkills/Limit.antt =====
-- After a check nobody is left on the list who has as many team kills as the rule allows, or more.
use spaghettimod.Prelude.{
  ℕ, zero, suc, ◌-◌, ◌≤◌, ◌<◌, ◌≡◌, refl, ap, true, false, List, [], ◌∷◌, none, some, arith, leb,
  length, get_or, set, take, length-set, length-take, get_or-set_self, get_or-set_ne, if-both,
  if◌then◌else◌, ℕ_discrete,
}
use spaghettimod.Prelude.Int.{ℤ}
use spaghettimod.Game.Modes.{m_timed}
use spaghettimod.Admission.Teamkills.{
  KickRule, Teamkills, Court, no_kills, drop_kills, punish, choose_rule, check_below,
  checkteamkills,
}

get_or-take :
    {A : Type 0} (n i : ℕ) (xs : List A) (d : A) → i < n → get_or (take n xs) i d ≡ get_or xs i d
get_or-take zero i xs d h = absurd (omega arith)
get_or-take (suc n) i [] d h = refl
get_or-take (suc n) zero (x ∷ xs) d h = refl
get_or-take (suc n) (suc i) (x ∷ xs) d h = get_or-take n i xs d (omega arith)

-- The entries from `k` on are under the limit.
record Under (limit k : ℕ) (tks : List Teamkills) : Type 0 where
  size : k ≤ length tks
  under : (i : ℕ) → k ≤ i → i < length tks → (get_or tks i no_kills).teamkills < limit

length-drop_kills : (tks : List Teamkills) (k : ℕ) → length (drop_kills tks k) ≡ length tks - 1
length-drop_kills tks k =
    let last = length tks - 1 in
    let v = get_or tks last no_kills in
    omega (arith, length-take last (set tks k v), length-set tks k v)

get_or-drop_kills :
    (tks : List Teamkills) (k i : ℕ)
    → i < length tks - 1
    → get_or (drop_kills tks k) i no_kills
      ≡ get_or (set tks k (get_or tks (length tks - 1) no_kills)) i no_kills
get_or-drop_kills tks k i h = get_or-take (length tks - 1) i _ no_kills h

drop_kills-Under :
    (limit k : ℕ) (tks : List Teamkills)
    → k < length tks
    → Under limit (suc k) tks
    → Under limit k (drop_kills tks k)
drop_kills-Under limit k tks inside u =
    let last = length tks - 1 in
    let v = get_or tks last no_kills in
    let size = length-drop_kills tks k in
    record {
      size = omega arith;
      under = λ i low high. elim (ℕ_discrete k i) [
        | yes same ↦
            let read = get_or-drop_kills tks k i (omega arith) in
            let put = get_or-set_self tks k v no_kills inside in
            let there = ap (λ j. get_or (set tks k v) j no_kills) same in
            let least = u.under last (omega arith) (omega arith) in
            omega (
              arith,
              ap (λ t. t.teamkills) read,
              ap (λ t. t.teamkills) there,
              ap (λ t. t.teamkills) put,
              least,
            )
        | no other ↦
            let read = get_or-drop_kills tks k i (omega arith) in
            let kept = get_or-set_ne tks k i v no_kills other in
            let least = u.under i (omega arith) (omega arith) in
            omega (arith, ap (λ t. t.teamkills) read, ap (λ t. t.teamkills) kept, least)
      ];
    }

module _ (getclientip : ℤ → ℕ) (gamemode : ℤ) (totalmillis : ℕ) (kick : KickRule) where
  check_below-Under :
      (k : ℕ) (s : Court)
      → Under kick.limit k s.teamkills
      → Under kick.limit 0 (check_below getclientip gamemode totalmillis kick k s).teamkills
  unfolding check_below punish
  check_below-Under zero s u = u
  check_below-Under (suc k) s u =
      let over = leb kick.limit (get_or s.teamkills k no_kills).teamkills in
      let size = u.size in
      check_below-Under k (if over then punish getclientip gamemode totalmillis kick k s else s) (
        if-both (λ (t : Court). Under kick.limit k t.teamkills) over
          (punish getclientip gamemode totalmillis kick k s) s
          (λ e. drop_kills-Under kick.limit k s.teamkills (omega arith) u)
          (λ e. record {
            size = omega arith;
            under = λ i low high. elim (ℕ_discrete k i) [
              | yes same ↦
                  let here = ap (λ j. (get_or s.teamkills j no_kills).teamkills) same in
                  ground (arith, here)
              | no other ↦ u.under i (omega arith) high
            ];
          }))

-- When a rule is chosen, which is only in a timed mode, after checkteamkills every address on the
-- list has less team kills than the rule's limit, and no check is due.
pub checkteamkills_limits :
    (getclientip : ℤ → ℕ) (gamemode : ℤ) (totalmillis : ℕ) (rules : List KickRule) (kick : KickRule)
    (s : Court)
    → m_timed gamemode ≡ true
    → choose_rule getclientip gamemode none rules ≡ some kick
    → let t = checkteamkills getclientip gamemode totalmillis rules s in
      (t.shouldcheckteamkills ≡ false)
      × ((i : ℕ) → i < length t.teamkills → (get_or t.teamkills i no_kills).teamkills < kick.limit)
unfolding checkteamkills
checkteamkills_limits getclientip gamemode totalmillis rules kick s timed chosen =
    let done =
      check_below-Under getclientip gamemode totalmillis kick (length s.teamkills) s
        (record { size = omega arith; under = λ i low high. absurd (omega arith) }) in
    rw (timed, chosen) (refl, λ i high. done.under i (omega arith) high)
