-- ===== src/Bots/Assign/Even.antt =====
-- A move of a bot keeps the clients sound, and leaves less pairs of bots of the same owner.
use spaghettimod.Prelude.{
  ◌+◌, ◌<◌, ◌≡◌, ◌≢◌, refl, ap, sym, ◌∙◌, true, List, [], ◌∷◌, ◌++◌, Option, none, some, arith,
  length, length-append, if◌then◌else◌,
}
use spaghettimod.Prelude.Int.{ℤ, negsuc, eqb_ℤ, eqb_ℤ_iff}
use spaghettimod.Bots.Member.{Member, Host, Bots, find, change, has, removeobj, add_bot, drop_bot}
use spaghettimod.Bots.Member.Store.{onto, find-change, KeepsNumber}
use spaghettimod.Bots.Member.Load.{
  Distinct, Distinct-change, load, load-change, pairs, pairs_next, pairs_fall, length-removeobj-has,
}
use spaghettimod.Bots.Assign.{shiftai}
use spaghettimod.Bots.Assign.Owners.{lists, CanOwn, Shows}
use spaghettimod.Bots.Assign.Moves.{
  shifted, left, freed, find-left, shiftai-none-clients, owned_by, find-shifted, shiftai-clients,
  shiftai-Shows,
}

-- Client numbers are distinct and not -1, and the lists of bots are those that the owners give.
pub record Sound (cs : List Member) : Type 0 where
  pub distinct : Distinct cs
  pub real : find cs (negsuc 0) ≡ none
  pub shows : Shows (lists cs) cs

Distinct-shifted :
    (ci : Member) (o : ℤ) (cs : List Member) → Distinct cs → Distinct (shifted ci o cs)
Distinct-shifted ci o cs h =
    Distinct-change _ o (add_bot ci.clientnum) (λ c. refl)
      (Distinct-change _ ci.clientnum (owned_by o) (λ c. refl)
        (Distinct-change cs ci.ownernum (drop_bot ci.clientnum) (λ c. refl) h))

Distinct-left : (ci : Member) (cs : List Member) → Distinct cs → Distinct (left ci cs)
Distinct-left ci cs h =
    Distinct-change _ ci.clientnum freed (λ c. refl)
      (Distinct-change cs ci.ownernum (drop_bot ci.clientnum) (λ c. refl) h)

module _ {M : Type 0} (host : Host M) (ci : Member) (s : Bots M) where
  Sound-of :
      (owner : Option ℤ)
      → find s.clients ci.clientnum ≡ some ci
      → ci.is_ai ≡ true
      → CanOwn s.clients ci owner
      → Sound s.clients
      → Distinct (shiftai host ci owner s).clients
      → find (shiftai host ci owner s).clients (negsuc 0) ≡ none
      → Sound (shiftai host ci owner s).clients
  Sound-of owner self robot can sound distinct real =
      let after =
        shiftai-Shows host (lists s.clients) ci owner s self robot sound.real can sound.shows in
      record {
        distinct = distinct;
        real = real;
        shows = record {
          by_lists = λ n b. refl;
          by_owners = λ n b. after.by_owners n b ∙ sym (after.by_lists n b);
        };
      }

  -- shiftai of a bot in the game to a client that can own it keeps the clients sound.
  pub shiftai-Sound :
      (owner : Option ℤ)
      → find s.clients ci.clientnum ≡ some ci
      → ci.is_ai ≡ true
      → CanOwn s.clients ci owner
      → Sound s.clients
      → Sound (shiftai host ci owner s).clients
  shiftai-Sound none self robot can sound =
      Sound-of none self robot can sound
        (rw (shiftai-none-clients host ci s) (Distinct-left ci s.clients sound.distinct))
        (rw (shiftai-none-clients host ci s, find-left ci s.clients (negsuc 0), sound.real)
          (ground arith))
  shiftai-Sound (some o) self robot can sound =
      Sound-of (some o) self robot can sound
        (rw (shiftai-clients host ci o s can.1) (Distinct-shifted ci o s.clients sound.distinct))
        (rw (shiftai-clients host ci o s can.1, find-shifted ci o s.clients (negsuc 0), sound.real)
          (ground arith))

found_onto :
    (cs : List Member) (m : ℤ) (f : Member → Member) (n : ℤ) (c : Member)
    → KeepsNumber f
    → find cs n ≡ some c
    → (d : Member) × (find (change cs m f) n ≡ some d)
found_onto cs m f n c keep e = (
  (if eqb_ℤ n m then f c else c),
  find-change cs m f n keep ∙ ap (onto (eqb_ℤ n m) f) e ∙ ground arith,
)

-- Another client keeps its bots when a bot leaves one client and gets a new owner.
bots_kept :
    (cs : List Member) (hi o b : ℤ) (lo : Member)
    → hi ≢ lo.clientnum
    → find cs lo.clientnum ≡ some lo
    → (e : Member) × (find (change (change cs hi (drop_bot b)) b (owned_by o)) lo.clientnum
        ≡ some e)
      × (e.bots ≡ lo.bots)
bots_kept cs hi o b lo apart at_lo = (
  (if eqb_ℤ lo.clientnum b then owned_by o lo else lo),
  find-change (change cs hi (drop_bot b)) b (owned_by o) lo.clientnum (λ c. refl)
      ∙ ap (onto (eqb_ℤ lo.clientnum b) (owned_by o)) (
          find-change cs hi (drop_bot b) lo.clientnum (λ c. refl)
          ∙ ap (onto (eqb_ℤ lo.clientnum hi) (drop_bot b)) at_lo)
      ∙ ground (arith, eqb_ℤ_iff lo.clientnum hi),
  ground arith,
)

pub apart_of :
    (cs : List Member) (hi lo : Member)
    → find cs hi.clientnum ≡ some hi
    → find cs lo.clientnum ≡ some lo
    → length lo.bots + 1 < length hi.bots
    → hi.clientnum ≢ lo.clientnum
apart_of cs hi lo at_hi at_lo less e =
    let same : some hi ≡ some lo = sym at_hi ∙ ap (find cs) e ∙ at_lo in ground arith

module _ (cs : List Member) (distinct : Distinct cs) (ci hi lo : Member) where
  -- A bot that moves from a client to one that has two bots less leaves less pairs.
  pub load-shifted :
      find cs ci.clientnum ≡ some ci
      → find cs hi.clientnum ≡ some hi
      → find cs lo.clientnum ≡ some lo
      → ci.ownernum ≡ hi.clientnum
      → has hi.bots ci.clientnum ≡ true
      → length lo.bots + 1 < length hi.bots
      → load (shifted ci lo.clientnum cs) < load cs
  load-shifted self at_hi at_lo own there less =
      let o = lo.clientnum in
      let b = ci.clientnum in
      let cs1 = change cs hi.clientnum (drop_bot b) in
      let cs2 = change cs1 b (owned_by o) in
      let apart = apart_of cs hi lo at_hi at_lo less in
      let (d, at_d) = found_onto cs hi.clientnum (drop_bot b) b ci (λ c. refl) self in
      let one = load-change cs hi.clientnum (drop_bot b) hi distinct at_hi in
      let distinct1 = Distinct-change cs hi.clientnum (drop_bot b) (λ c. refl) distinct in
      let two = load-change cs1 b (owned_by o) d distinct1 at_d in
      let (e, at_e, same) = bots_kept cs hi.clientnum o b lo apart at_lo in
      let distinct2 = Distinct-change cs1 b (owned_by o) (λ c. refl) distinct1 in
      let three = load-change cs2 o (add_bot b) e distinct2 at_e in
      let old : pairs (length e.bots) ≡ pairs (length lo.bots) = ap (λ x. pairs (length x)) same in
      let grown : pairs (length (e.bots ++ (b ∷ []))) ≡ length lo.bots + pairs (length lo.bots) =
        ap pairs (length-append e.bots (b ∷ []) ∙ ap (λ x. length x + 1) same)
        ∙ pairs_next (length lo.bots) in
      let fall =
        pairs_fall (length lo.bots) (length hi.bots) (length (removeobj hi.bots b))
          (length-removeobj-has hi.bots b there) less in
      rw own (omega (arith, one, two, three, old, grown, fall))
