-- ===== src/Bots/Assign/Holder.antt =====
-- The loop of `removeai`, for a client in the game and for one that has left it.
use mathlib.Core.Path.{subst}
use spaghettimod.Prelude.{
  ℕ, zero, suc, ◌≤◌, ◌≡◌, ◌≢◌, ◌⊎◌, refl, sym, ap, ◌∙◌, true, false, List, ◌∷◌, Option, none, some,
  arith, length, get_elem?, Option-cases, inl, inr,
}
use spaghettimod.Prelude.Int.{ℤ, eqb_ℤ_iff}
use spaghettimod.Bots.Member.{Member, Host, Bots, find, has}
use spaghettimod.Bots.Member.Store.{has_nth, nth_past}
use spaghettimod.Bots.Member.Load.{length-removeobj-has}
use spaghettimod.Bots.Assign.{
  findaiclient, number, shift_nth, remove_from, shiftai, bot_at, left_by,
}
use spaghettimod.Bots.Assign.Owners.{CanOwn}
use spaghettimod.Bots.Assign.Even.{Sound, shiftai-Sound}
use spaghettimod.Bots.Assign.Loop.{bot_of_list, shift_nth_of}
use spaghettimod.Bots.Assign.Leaving.{find-cons, findaiclient-cons, Differs, shiftai-cons}
use spaghettimod.Bots.Assign.Owning.{found-CanOwn, find-owner, find-absent}

-- The clients with `ci`, which is one of them or has left them.
abbrev pub With : Member → List Member → List Member → Type 0
With ci cs all = (all ≡ cs) ⊎ ((all ≡ ci ∷ cs) × (find cs ci.clientnum ≡ none))

-- A person `ci` of at most `k` bots, with clients in a sound state.
pub record Holder (ci : Member) (k : ℕ) (cs : List Member) : Type 0 where
  pub person : ci.is_ai ≡ false
  pub few : length ci.bots ≤ k
  pub all : List Member
  pub sound : Sound all
  pub there : find all ci.clientnum ≡ some ci
  pub seen : With ci cs all

same_choice :
    (ci : Member) (cs all : List Member)
    → With ci cs all
    → findaiclient all (some ci.clientnum) ≡ findaiclient cs (some ci.clientnum)
same_choice ci cs all (inl same) = ap (λ l. findaiclient l (some ci.clientnum)) same
same_choice ci cs all (inr (same, gone)) =
    ap (λ l. findaiclient l (some ci.clientnum)) same ∙ findaiclient-cons ci cs

same_find :
    (ci : Member) (cs all : List Member) (n : ℤ)
    → With ci cs all
    → ci.clientnum ≢ n
    → find all n ≡ find cs n
same_find ci cs all n (inl same) other = ap (λ l. find l n) same
same_find ci cs all n (inr (same, gone)) other = ap (λ l. find l n) same ∙ find-cons ci cs n other

-- A bot has another number than a person.
bot_apart :
    (ci bot : Member) (cs : List Member) (b : ℤ)
    → find cs ci.clientnum ≡ some ci
    → find cs b ≡ some bot
    → ci.is_ai ≡ false
    → bot.is_ai ≡ true
    → ci.clientnum ≢ b
bot_apart ci bot cs b at_ci at_b person robot e =
    let same : some ci ≡ some bot = sym at_ci ∙ ap (find cs) e ∙ at_b in ground arith

-- What the shift of a bot of the client leaves of it.
left_by-keeps :
    (ci bot : Member)
    → (left_by (some bot) ci).clientnum ≡ ci.clientnum × ((left_by (some bot) ci).is_ai ≡ ci.is_ai)
left_by-keeps ci bot = ground arith

left_by-fewer :
    (ci bot : Member) (k : ℕ)
    → bot.ownernum ≡ ci.clientnum
    → has ci.bots bot.clientnum ≡ true
    → length ci.bots ≤ suc k
    → length (left_by (some bot) ci).bots ≤ k
left_by-fewer ci bot k own there few =
    ground
      (arith, eqb_ℤ_iff bot.ownernum ci.clientnum, length-removeobj-has ci.bots bot.clientnum there)

module _ {M : Type 0} (host : Host M) where
  shifted-With :
      (ci bot : Member) (owner : Option ℤ) (s : Bots M) (all : List Member)
      → ci.clientnum ≢ bot.clientnum
      → Differs owner ci.clientnum
      → Differs owner bot.ownernum
      → With ci s.clients all
      → With
          (left_by (some bot) ci)
          (shiftai host bot owner s).clients
          (shiftai host bot owner (record s { clients = all })).clients
  shifted-With ci bot owner s all apart other new (inl same) =
      inl (ap (λ l. (shiftai host bot owner (record s { clients = l })).clients) same)
  shifted-With ci bot owner s all apart other new (inr (same, gone)) = inr (
    ap (λ l. (shiftai host bot owner (record s { clients = l })).clients) same
        ∙ shiftai-cons host ci bot owner s (λ e. apart (sym e)) other new,
    ap (find (shiftai host bot owner s).clients) (left_by-keeps ci bot).0
        ∙ find-absent host ci.clientnum bot owner s new gone,
  )

  -- One round of removeai.
  round-Holder :
      (ci : Member) (k : ℕ) (s : Bots M)
      → Holder ci (suc k) s.clients
      → (left_by (bot_at s.clients ci k) ci).clientnum ≡ ci.clientnum
        × Holder
            (left_by (bot_at s.clients ci k) ci)
            k
            (shift_nth host ci k (number (findaiclient s.clients (some ci.clientnum))) s).clients
  unfolding shift_nth
  round-Holder ci k s h = elim (Option-cases (get_elem? ci.bots k)) [
    | inl past ↦ rw past (
      refl,
      record {
        person = h.person;
        few = nth_past ci.bots k past;
        all = h.all;
        sound = h.sound;
        there = h.there;
        seen = h.seen;
      },
    )
    | inr (b, at_k) ↦
        let o = number (findaiclient s.clients (some ci.clientnum)) in
        let listed = has_nth ci.bots k b at_k in
        let (bot, at_b, own, num, robot) =
          bot_of_list h.all ci.clientnum b ci h.sound.shows h.there listed in
        let apart = bot_apart ci bot h.all b h.there at_b h.person robot in
        let seen_b : find s.clients b ≡ some bot =
          sym (same_find ci s.clients h.all b h.seen apart) ∙ at_b in
        let choice = same_choice ci s.clients h.all h.seen in
        let (can, other, new) =
          subst
            (λ c.
              CanOwn h.all bot (number c)
              × Differs (number c) ci.clientnum
              × Differs (number c) bot.ownernum)
            choice (found-CanOwn ci.clientnum h.all bot h.sound own) in
        let view : Bots M = record s { clients = h.all } in
        let apart_bot : ci.clientnum ≢ bot.clientnum = λ e. apart (e ∙ num) in
        let keeps = left_by-keeps ci bot in
        let self : find h.all bot.clientnum ≡ some bot = ap (find h.all) num ∙ at_b in
        rw (shift_nth_of host s ci k o b bot at_k seen_b, at_k, seen_b)
          (
            keeps.0,
            record {
              person = keeps.1 ∙ h.person;
              few = left_by-fewer ci bot k own (rw num listed) h.few;
              all = (shiftai host bot o view).clients;
              sound = shiftai-Sound host bot view o self robot can h.sound;
              there =
                  ap (find (shiftai host bot o view).clients) keeps.0
                  ∙ find-owner host ci bot o view can other (λ e. apart_bot (sym e)) h.there;
              seen = shifted-With ci bot o s h.all apart_bot other new h.seen;
            },
          )
  ]

  pub loop-Holder :
      (ci : Member) (k : ℕ) (s : Bots M)
      → Holder ci k s.clients
      → let (ci', t) = remove_from host ci k s in
        (ci'.clientnum ≡ ci.clientnum) × Holder ci' 0 t.clients
  unfolding remove_from
  loop-Holder ci zero s h = (refl, h)
  loop-Holder ci (suc k) s h =
      let round = round-Holder ci k s h in
      let rest =
        loop-Holder (left_by (bot_at s.clients ci k) ci) k
          (shift_nth host ci k (number (findaiclient s.clients (some ci.clientnum))) s) round.1 in
      (rest.0 ∙ round.0, rest.1)
