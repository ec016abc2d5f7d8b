-- ===== src/Scores/Back.antt =====
-- A client that comes back has the score with which it left.
use spaghettimod.Prelude.{
  ℕ, ◌-◌, ◌<◌, ◌≡◌, refl, ◌∙◌, false, ◌&&◌, List, [], ◌∷◌, none, some, arith, ◌==◌, length,
  take_all, All, if-both,
}
use spaghettimod.Prelude.Int.{ℤ}
use spaghettimod.Game.Names.{
  Name, same_name, same_name_iff, same_name_refl, copystring, max_str_len,
}
use spaghettimod.Scores.{
  Stats, Scorer, SavedScore, is_score_of, save_under, score_under, is_unknown, savescore, is_double,
  double_score, restorescore,
}

copystring_short : (name : Name) → length name < max_str_len → copystring max_str_len name ≡ name
unfolding copystring
copystring_short name h = take_all (max_str_len - 1) name (omega arith)

module _ {E : Type 0} where
  score_under-save_under :
      (ip : ℕ) (name : Name) (stats : Stats E) (scores : List (SavedScore E))
      → length name < max_str_len
      → score_under ip name (save_under ip name stats scores) ≡ some stats
  unfolding score_under save_under is_score_of
  score_under-save_under ip name stats [] short =
      rw (copystring_short name short) (ground (arith, same_name_refl name))
  score_under-save_under ip name stats (sc ∷ scores) short =
      ground (arith, score_under-save_under ip name stats scores short)

  -- A score that is saved for another address or name changes nothing.
  score_under-other :
      (ip jp : ℕ) (name other : Name) (stats : Stats E) (scores : List (SavedScore E))
      → length other < max_str_len
      → (jp == ip && same_name other name) ≡ false
      → score_under ip name (save_under jp other stats scores) ≡ score_under ip name scores
  unfolding score_under save_under is_score_of
  score_under-other ip jp name other stats [] short apart =
      rw (copystring_short other short) (ground arith)
  score_under-other ip jp name other stats (sc ∷ scores) short apart = ground (
    arith,
    score_under-other ip jp name other stats scores short apart,
    same_name_iff sc.name other,
    same_name_iff sc.name name,
    same_name_iff other name,
  )

module _ {E : Type 0} where
  -- Clients that leave one after the other, each with the addresses that the client numbers stand
  -- for at that time: numbers are given again.
  unfoldable pub save_all : List ((ℤ → ℕ) × Scorer E) → List (SavedScore E) → List (SavedScore E)
  save_all [] scores = scores
  save_all ((getclientip, ci) ∷ cs) scores = save_all cs (savescore getclientip ci scores)

  -- Another address or another name, which fits the array.
  abbrev pub IsOther : ℕ → Name → (ℤ → ℕ) × Scorer E → Type 0
  IsOther ip name (getclientip, oi) =
      (length oi.name < max_str_len)
      × ((getclientip oi.clientnum == ip && same_name oi.name name) ≡ false)

  score_under-save_all :
      (ip : ℕ) (name : Name) (others : List ((ℤ → ℕ) × Scorer E)) (scores : List (SavedScore E))
      → All (IsOther ip name) others
      → score_under ip name (save_all others scores) ≡ score_under ip name scores
  unfolding save_all savescore
  score_under-save_all ip name [] scores all = refl
  score_under-save_all ip name ((getclientip, oi) ∷ others) scores all =
      score_under-save_all ip name others (savescore getclientip oi scores) all.1
      ∙ if-both (λ l. score_under ip name l ≡ score_under ip name scores)
          (is_unknown getclientip oi) scores
          (save_under (getclientip oi.clientnum) oi.name oi.stats scores) (λ e. refl)
          (λ e. score_under-other _ _ name oi.name oi.stats scores all.0.0 all.0.1)

  no_double :
      (getclientip : ℤ → ℕ) (lastmillis : ℤ) (ci : Scorer E) (clients : List (Scorer E))
      → All (λ oi. is_double getclientip ci oi ≡ false) clients
      → double_score getclientip lastmillis ci clients ≡ (none, clients)
  unfolding double_score
  no_double getclientip lastmillis ci [] all = refl
  no_double getclientip lastmillis ci (oi ∷ clients) all =
      ground (arith, all.0, no_double getclientip lastmillis ci clients all.1)

  -- When a client with an address leaves, and then others of another address or name, whatever
  -- their numbers, a client that comes back from the same address with the same name, under any
  -- number, while no other client in the game has both, gets the score with which the first one
  -- left, and the clients stay as they are. The addresses that client numbers stand for are those
  -- of the time of each event.
  pub restorescore-savescore :
      (leaving now : ℤ → ℕ) (lastmillis : ℤ) (ci back : Scorer E)
      (others : List ((ℤ → ℕ) × Scorer E)) (clients : List (Scorer E))
      (scores : List (SavedScore E))
      → length ci.name < max_str_len
      → is_unknown leaving ci ≡ false
      → is_unknown now back ≡ false
      → now back.clientnum ≡ leaving ci.clientnum
      → back.name ≡ ci.name
      → All (IsOther (leaving ci.clientnum) ci.name) others
      → All (λ oi. is_double now back oi ≡ false) clients
      → restorescore now lastmillis back clients (save_all others (savescore leaving ci scores))
        ≡ (some ci.stats, clients)
  unfolding restorescore savescore
  restorescore-savescore leaving now lastmillis ci back others clients scores short known back_known
        address name apart single =
      let ip = leaving ci.clientnum in
      let kept = save_under ip ci.name ci.stats scores in
      let stays = score_under-save_all ip ci.name others kept apart in
      let found = score_under-save_under ip ci.name ci.stats scores short in
      rw
        (
          known,
          no_double now lastmillis back clients single,
          back_known,
          address,
          name,
          stays,
          found,
        )
        refl
