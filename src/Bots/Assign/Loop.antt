-- ===== src/Bots/Assign/Loop.antt =====
-- `while(reassignai());` ends, with the bots spread evenly.
use spaghettimod.Prelude.{
  ℕ, zero, suc, ◌+◌, ◌-◌, ◌≤◌, ◌<◌, ◌≡◌, ◌≢◌, refl, ap, sym, ◌∙◌, Bool, true, false, List, Option,
  none, some, arith, length, All, get_elem?, if-both, Option-cases, inl, inr,
}
use spaghettimod.Prelude.Int.{ℤ, eqb_ℤ_iff}
use spaghettimod.Bots.Member.{Member, Host, Bots, find, has}
use spaghettimod.Bots.Member.Store.{nth-has, find_number}
use spaghettimod.Bots.Member.Load.{load, All-find, found_self}
use spaghettimod.Bots.Assign.{
  validaiclient, extremes, shift_nth, even_out, reassignai, reassign_all, shiftai,
}
use spaghettimod.Bots.Assign.Owners.{listed, owner_is, lists, owns, Shows}
use spaghettimod.Bots.Assign.Moves.{shiftai-clients}
use spaghettimod.Bots.Assign.Even.{Sound, shiftai-Sound, load-shifted, apart_of}
use spaghettimod.Bots.Assign.Least.{Holds, Between, extremes-Holds, extremes-Between}

-- A bot in a list is in the game, and its owner is the client of the list.
pub bot_of_list :
    (cs : List Member) (n b : ℤ) (c : Member)
    → Shows (lists cs) cs
    → find cs n ≡ some c
    → has c.bots b ≡ true
    → (ci : Member) × (find cs b ≡ some ci)
      × (ci.ownernum ≡ n)
      × (ci.clientnum ≡ b)
      × (ci.is_ai ≡ true)
unfolding lists owns
bot_of_list cs n b c shows at_n there =
    let owner : owner_is (find cs n) (find cs b) n ≡ true =
      shows.by_owners n b ∙ ap (λ o. listed o b) at_n ∙ there in
    elim (Option-cases (find cs b)) [
      | inl gone ↦ absurd (ground arith)
      | inr (ci, at_b) ↦ (
        ci,
        at_b,
        ground (arith, eqb_ℤ_iff ci.ownernum n),
        find_number cs b ci at_b,
        ground arith,
      )
    ]

-- Any two valid clients differ by at most one bot.
abbrev pub Spread : List Member → Type 0
Spread cs =
    (m n : ℤ) (a b : Member)
    → find cs m ≡ some a
    → find cs n ≡ some b
    → validaiclient a ≡ true
    → validaiclient b ≡ true
    → length a.bots ≤ length b.bots + 1

-- What a call of `reassignai` did: it shifted a bot, which leaves less pairs, or it found nothing
-- to move.
abbrev Round : {M : Type 0} → Bots M → Bool × Bots M → Type 0
Round s (true, s') = Sound s'.clients × (load s'.clients < load s.clients)
Round s (false, s') = (s' ≡ s) × Spread s.clients

module _ {M : Type 0} (host : Host M) where
  pub shift_nth_of :
      (s : Bots M) (hi : Member) (i : ℕ) (o : Option ℤ) (b : ℤ) (ci : Member)
      → get_elem? hi.bots i ≡ some b
      → find s.clients b ≡ some ci
      → shift_nth host hi i o s ≡ shiftai host ci o s
  unfolding shift_nth
  shift_nth_of s hi i o b ci at_i at_b = rw (at_i, at_b) refl

  -- The move of the last bot of `hi` to `lo`, which has at least two bots less.
  move_last :
      (s : Bots M) (hi lo : Member)
      → Sound s.clients
      → find s.clients hi.clientnum ≡ some hi
      → find s.clients lo.clientnum ≡ some lo
      → length lo.bots + 1 < length hi.bots
      → Round s (true, shift_nth host hi (length hi.bots - 1) (some lo.clientnum) s)
  move_last s hi lo sound at_hi at_lo less =
      let (b, at_i, there) = nth-has hi.bots (length hi.bots - 1) (omega arith) in
      let (ci, at_b, own, num, robot) =
        bot_of_list s.clients hi.clientnum b hi sound.shows at_hi there in
      let self : find s.clients ci.clientnum ≡ some ci = ap (find s.clients) num ∙ at_b in
      let apart = apart_of s.clients hi lo at_hi at_lo less in
      let new : ci.ownernum ≢ lo.clientnum = λ e. apart (sym own ∙ e) in
      rw (shift_nth_of s hi (length hi.bots - 1) (some lo.clientnum) b ci at_i at_b) (
        shiftai-Sound host ci s (some lo.clientnum) self robot
            (λ gone. absurd (ground (arith, gone, at_lo)), new) sound,
        rw (shiftai-clients host ci lo.clientnum s new) (
            load-shifted s.clients sound.distinct ci hi lo self at_hi at_lo own (rw num there)
              less),
      )

  even_out-Round :
      (s : Bots M) (lo hi : Option Member)
      → Sound s.clients
      → Holds (λ c. find s.clients c.clientnum ≡ some c) lo
      → Holds (λ c. find s.clients c.clientnum ≡ some c) hi
      → All (Between (lo, hi)) s.clients
      → Round s (even_out host (lo, hi) s)
  even_out-Round s none hi sound l h all = (
    refl,
    λ m n a b at_m at_n va vb. absurd ((All-find (Between (none, hi)) s.clients m a all at_m va).0),
  )
  even_out-Round s (some lo) none sound l h all = (
    refl,
    λ m n a b at_m at_n va vb.
        absurd ((All-find (Between (some lo, none)) s.clients m a all at_m va).1),
  )
  even_out-Round s (some lo) (some hi) sound l h all =
      if-both (Round s) _ (true, shift_nth host hi (length hi.bots - 1) (some lo.clientnum) s)
        (false, s) (λ e. move_last s hi lo sound h l (ground arith))
        (λ e. (
          refl,
          λ m n a b at_m at_n va vb.
              let below = (All-find (Between (some lo, some hi)) s.clients m a all at_m va).1 in
              let above = (All-find (Between (some lo, some hi)) s.clients n b all at_n vb).0 in
              ground (arith, below, above),
        ))

  reassignai-Round : (s : Bots M) → Sound s.clients → Round s (reassignai host s)
  unfolding reassignai
  reassignai-Round s sound =
      let found = found_self s.clients sound.distinct in
      let held =
        extremes-Holds (λ c. find s.clients c.clientnum ≡ some c) none none s.clients tt tt found in
      even_out-Round s (extremes none none s.clients).0 (extremes none none s.clients).1 sound
        held.0 held.1 (extremes-Between none none s.clients)

  -- How the loop ends: in a sound state, in which reassignai finds nothing to move, and the bots
  -- are spread evenly.
  pub record Ended (s : Bots M) : Type 0 where
    pub sound : Sound s.clients
    pub idle : reassignai host s ≡ (false, s)
    pub spread : Spread s.clients

  moved_on :
      (s : Bots M) (r : Bool × Bots M)
      → Round s r
      → r.0 ≡ true
      → Sound r.1.clients × (load r.1.clients < load s.clients)
  moved_on s (true, s') round e = round
  moved_on s (false, s') round e = absurd (cc)

  after-Round :
      (fuel : ℕ) (s : Bots M) (r : Bool × Bots M)
      → reassignai host s ≡ r
      → Sound s.clients
      → Round s r
      → (r.0 ≡ true → (t : Bots M) × (reassign_all host fuel r.1 ≡ some t) × Ended t)
      → (t : Bots M) × (reassign_all host (suc fuel) s ≡ some t) × Ended t
  unfolding reassign_all
  after-Round fuel s (true, s') e sound round rest =
      let (t, ends, ended) = rest refl in (t, rw e ends, ended)
  after-Round fuel s (false, s') e sound round rest =
      let idle : reassignai host s ≡ (false, s) = e ∙ ap (λ (x : Bots M). (false, x)) round.0 in
      (s, rw idle refl, record { sound = sound; idle = idle; spread = round.1 })

  -- From a sound state the loop of checkai ends: with more fuel than there are pairs of bots of the
  -- same owner it reaches a sound state in which reassignai finds nothing to move, and any two
  -- valid clients differ by at most one bot.
  pub reassign_all-Ended :
      (fuel : ℕ) (s : Bots M)
      → Sound s.clients
      → load s.clients < fuel
      → (t : Bots M) × (reassign_all host fuel s ≡ some t) × Ended t
  reassign_all-Ended zero s sound enough = absurd (omega arith)
  reassign_all-Ended (suc fuel) s sound enough =
      let round = reassignai-Round s sound in
      after-Round fuel s (reassignai host s) refl sound round λ again.
        let next = moved_on s (reassignai host s) round again in
        reassign_all-Ended fuel (reassignai host s).1 next.0 (omega (arith, next.1))
