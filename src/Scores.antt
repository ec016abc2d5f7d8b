-- ===== src/Scores.antt =====
-- The scores of clients that left, for when they come back (fpsgame/server.cpp). The address of a
-- client is the engine's answer, and a float is any type. The hooks of the Lua scripts are taken to
-- be unset.
pub mod Back
mod Tests
use mathlib.Core.Bool.{not}
use spaghettimod.Prelude.{
  ℕ, Bool, true, false, ◌&&◌, ◌||◌, List, [], ◌∷◌, Option, none, some, ◌==◌, if◌then◌else◌,
}
use spaghettimod.Prelude.Int.{ℤ, eqb_ℤ, ◌+ℤ◌, ◌-ℤ◌}
use spaghettimod.Game.Names.{Name, same_name, copystring, max_str_len}

-- What `savedscore` and `gamestate` have in common.
pub record Stats (E : Type 0) : Type 0 where
  pub frags : ℤ
  pub flags : ℤ
  pub deaths : ℤ
  pub teamkills : ℤ
  pub shotdamage : ℤ
  pub damage : ℤ
  pub timeplayed : ℤ
  pub effectiveness : E

pub record Scorer (E : Type 0) : Type 0 where
  pub clientnum : ℤ
  pub local : Bool
  pub name : Name
  pub lasttimeplayed : ℤ
  pub stats : Stats E

pub record SavedScore (E : Type 0) : Type 0 where
  pub ip : ℕ
  pub name : Name
  pub stats : Stats E

module _ {E : Type 0} where
  unfoldable pub is_score_of : ℕ → Name → SavedScore E → Bool
  is_score_of ip name sc = sc.ip == ip && same_name sc.name name

  -- `savedscore::save` on the entry that `findscore(ci, true)` finds or adds.
  unfoldable pub save_under : ℕ → Name → Stats E → List (SavedScore E) → List (SavedScore E)
  save_under ip name stats [] =
      record { ip = ip; name = copystring max_str_len name; stats = stats } ∷ []
  save_under ip name stats (sc ∷ scores) =
      let rest = save_under ip name stats scores in
      if is_score_of ip name sc then record sc { stats = stats } ∷ scores else sc ∷ rest

  unfoldable pub score_under : ℕ → Name → List (SavedScore E) → Option (Stats E)
  score_under ip name [] = none
  score_under ip name (sc ∷ scores) =
      let rest = score_under ip name scores in
      if is_score_of ip name sc then some sc.stats else rest

module _ {E : Type 0} (getclientip : ℤ → ℕ) where
  -- Scores of clients without an address are not kept, but those of local clients.
  abbrev pub is_unknown : Scorer E → Bool
  is_unknown ci = getclientip ci.clientnum == 0 && not ci.local

  unfoldable pub savescore : Scorer E → List (SavedScore E) → List (SavedScore E)
  savescore ci scores =
      if is_unknown ci
      then scores
      else save_under (getclientip ci.clientnum) ci.name ci.stats scores

  abbrev pub is_double : Scorer E → Scorer E → Bool
  is_double ci oi =
      not (eqb_ℤ oi.clientnum ci.clientnum)
      && getclientip oi.clientnum == getclientip ci.clientnum
      && same_name oi.name ci.name

  -- The time that the client has played up to now.
  unfoldable pub count_time : ℤ → Scorer E → Scorer E
  count_time lastmillis oi = record oi {
    lasttimeplayed = lastmillis;
    stats = record oi.stats {
      timeplayed = oi.stats.timeplayed +ℤ (lastmillis -ℤ oi.lasttimeplayed);
    };
  }

  -- The score of another client of the same address and name, and the clients after that.
  unfoldable pub double_score : ℤ → Scorer E → List (Scorer E) → Option (Stats E) × List (Scorer E)
  double_score lastmillis ci [] = (none, [])
  double_score lastmillis ci (oi ∷ clients) =
      let (found, rest) = double_score lastmillis ci clients in
      let now = count_time lastmillis oi in
      if is_double ci oi then (some now.stats, now ∷ clients) else (found, oi ∷ rest)

  abbrev pub or_saved : Option (Stats E) → Option (Stats E) → Option (Stats E)
  or_saved (some stats) saved = some stats
  or_saved none saved = saved

  -- The stats that `restorescore` gives the client, if it does, and the clients after that.
  unfoldable pub restorescore :
      ℤ → Scorer E → List (Scorer E) → List (SavedScore E) → Option (Stats E) × List (Scorer E)
  restorescore lastmillis ci clients scores =
      let (double, after) = double_score lastmillis ci clients in
      if is_unknown ci
      then (none, clients)
      else (or_saved double (score_under (getclientip ci.clientnum) ci.name scores), after)
