-- ===== src/Bots/Assign/Removal.antt =====
-- `removeai` leaves a client without bots, whether it stays in the game or has left it.
use mathlib.Core.Path.{subst}
use spaghettimod.Prelude.{
  ◌≤◌, ◌≡◌, ◌≢◌, ◌⊎◌, refl, sym, ap, ◌∙◌, true, false, List, [], ◌∷◌, Option, none, some, arith,
  length, inl, inr, All, ◌&&◌, Bool-cases,
}
use spaghettimod.Prelude.Int.{ℤ, eqb_ℤ, eqb_ℤ_iff, negsuc}
use spaghettimod.Bots.Member.{Member, Host, Bots, find, has}
use spaghettimod.Bots.Member.Load.{Distinct, found_self}
use spaghettimod.Bots.Assign.{remove_from, removeai}
use spaghettimod.Bots.Assign.Owners.{listed, owner_is, lists, owns}
use spaghettimod.Bots.Assign.Even.{Sound}
use spaghettimod.Bots.Assign.Leaving.{find-cons, find-head}
use spaghettimod.Bots.Assign.Holder.{With, Holder, loop-Holder}

no_bots : (xs : List ℤ) (b : ℤ) → length xs ≤ 0 → has xs b ≡ false
unfolding has
no_bots [] b h = refl
no_bots (x ∷ xs) b h = absurd (omega arith)

owner_is-none : (m : Option Member) (n : ℤ) → owner_is m none n ≡ false
owner_is-none none n = refl
owner_is-none (some c) n = refl

owner_is-person :
    (m : Option Member) (ci : Member) (n : ℤ) → ci.is_ai ≡ false → owner_is m (some ci) n ≡ false
owner_is-person none ci n person = refl
owner_is-person (some c) ci n person = ground arith

-- Without a person that nobody else has the number of, a sound state is sound.
module _ (ci : Member) (cs : List Member) (person : ci.is_ai ≡ false)
    (gone : find cs ci.clientnum ≡ none) (sound : Sound (ci ∷ cs)) where
  absent_at : (n : ℤ) → eqb_ℤ ci.clientnum n ≡ true → find cs n ≡ none
  absent_at n same = ap (find cs) (sym ((eqb_ℤ_iff ci.clientnum n).0 same)) ∙ gone

  other_number : (n : ℤ) → eqb_ℤ ci.clientnum n ≡ false → ci.clientnum ≢ n
  other_number n other e = ground (arith, eqb_ℤ_iff ci.clientnum n)

  tail-owners : (n b : ℤ) → owns cs n b ≡ lists cs n b
  unfolding lists owns
  tail-owners n b = elim (Bool-cases (eqb_ℤ ci.clientnum n)) [
    | inl same ↦ rw (absent_at n same) refl
    | inr other ↦
        let step : owner_is (find cs n) (find (ci ∷ cs) b) n ≡ listed (find cs n) b =
          subst (λ m. owner_is m (find (ci ∷ cs) b) n ≡ listed m b)
            (find-cons ci cs n (other_number n other)) (sound.shows.by_owners n b) in
        elim (Bool-cases (eqb_ℤ ci.clientnum b)) [
          | inl same ↦
              let head : find (ci ∷ cs) b ≡ some ci =
                ap (find (ci ∷ cs)) (sym ((eqb_ℤ_iff ci.clientnum b).0 same)) ∙ find-head ci cs in
              ap (λ d. owner_is (find cs n) d n) (absent_at b same)
              ∙ owner_is-none (find cs n) n
              ∙ sym (owner_is-person (find cs n) ci n person)
              ∙ ap (λ d. owner_is (find cs n) d n) (sym head)
              ∙ step
          | inr differs ↦
              ap (λ d. owner_is (find cs n) d n) (sym (find-cons ci cs b (other_number b differs)))
              ∙ step
        ]
  ]

  tail-real : find cs (negsuc 0) ≡ none
  tail-real = elim (Bool-cases (eqb_ℤ ci.clientnum (negsuc 0))) [
    | inl same ↦ absent_at (negsuc 0) same
    | inr other ↦ sym (find-cons ci cs (negsuc 0) (other_number (negsuc 0) other)) ∙ sound.real
  ]

  tail-Sound : Sound cs
  unfolding Distinct
  tail-Sound = record {
    distinct = sound.distinct.1;
    real = tail-real;
    shows = record { by_lists = λ n b. refl; by_owners = tail-owners };
  }

-- No bot among the clients has the owner `n`.
abbrev pub Unowned : ℤ → List Member → Type 0
Unowned n = All (λ c. (c.is_ai && eqb_ℤ c.ownernum n) ≡ false)

seen_all :
    (ci c : Member) (cs all : List Member) (n : ℤ)
    → With ci cs all
    → find cs n ≡ some c
    → find all n ≡ some c
seen_all ci c cs all n (inl same) at_n = ap (λ l. find l n) same ∙ at_n
seen_all ci c cs all n (inr (same, gone)) at_n =
    ap (λ l. find l n) same
    ∙ find-cons ci cs n (λ e. absurd (ground (arith, ap (find cs) e, gone, at_n)))
    ∙ at_n

module _ (ci : Member) (cs : List Member) (h : Holder ci 0 cs) where
  Holder-Sound : Sound cs
  Holder-Sound = elim h.seen [
    | inl same ↦ subst Sound same h.sound
    | inr (same, gone) ↦ tail-Sound ci cs h.person gone (subst Sound same h.sound)
  ]

  Unowned-found :
      (ds : List Member) → All (λ c. find cs c.clientnum ≡ some c) ds → Unowned ci.clientnum ds
  unfolding owns lists
  Unowned-found [] found = tt
  Unowned-found (c ∷ ds) found =
      let seen : find h.all c.clientnum ≡ some c =
        seen_all ci c cs h.all c.clientnum h.seen found.0 in
      let owners : owner_is (some ci) (some c) ci.clientnum ≡ listed (some ci) c.clientnum =
        sym (ap (λ m. owner_is m (some c) ci.clientnum) h.there)
        ∙ sym (ap (λ d. owner_is (find h.all ci.clientnum) d ci.clientnum) seen)
        ∙ h.sound.shows.by_owners ci.clientnum c.clientnum
        ∙ ap (λ m. listed m c.clientnum) h.there in
      (owners ∙ no_bots ci.bots c.clientnum h.few, Unowned-found ds found.1)

module _ {M : Type 0} (host : Host M) where
  removeai-Holder :
      (ci : Member) (s : Bots M)
      → Holder ci (length ci.bots) s.clients
      → let t = (removeai host ci s).1 in Sound t.clients × Unowned ci.clientnum t.clients
  unfolding removeai
  removeai-Holder ci s h =
      let (same, after) = loop-Holder host ci (length ci.bots) s h in
      let (ci', t) = remove_from host ci (length ci.bots) s in
      let sound = Holder-Sound ci' t.clients after in
      (
        sound,
        subst (λ n. Unowned n t.clients) same
            (Unowned-found ci' t.clients after t.clients (found_self t.clients sound.distinct)),
      )

  -- When a person is among the clients in a sound state, or has left `clients`, which were in a
  -- sound state with it, as when it disconnects, then after removeai the clients are in a sound
  -- state, and no bot among them has it as the owner.
  pub removeai-Freed :
      (ci : Member) (s : Bots M)
      → ci.is_ai ≡ false
      → ((find s.clients ci.clientnum ≡ some ci) × Sound s.clients)
        ⊎ ((find s.clients ci.clientnum ≡ none) × Sound (ci ∷ s.clients))
      → let t = (removeai host ci s).1 in Sound t.clients × Unowned ci.clientnum t.clients
  removeai-Freed ci s person (inl (there, sound)) = removeai-Holder ci s (record {
    person = person;
    few = omega arith;
    all = s.clients;
    sound = sound;
    there = there;
    seen = inl refl;
  })
  removeai-Freed ci s person (inr (gone, sound)) = removeai-Holder ci s (record {
    person = person;
    few = omega arith;
    all = ci ∷ s.clients;
    sound = sound;
    there = find-head ci s.clients;
    seen = inr (refl, gone);
  })
