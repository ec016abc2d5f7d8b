-- ===== src/Bots/Roster/Slots.antt =====
-- How many slots for bots there are after `addai`.
use spaghettimod.Prelude.{
  ℕ, zero, suc, ◌≤◌, ◌<◌, ◌≡◌, refl, ap, ◌∙◌, Bool, true, false, List, [], ◌∷◌, ◌++◌, Option, none,
  some, arith, length, get_elem?, length-set, length-append, if-both, leb,
}
use spaghettimod.Prelude.Int.{ℤ, pos, negsuc}
use spaghettimod.Game.World.{Env}
use spaghettimod.Bots.Member.{Member, Host, Bots, maxbots}
use spaghettimod.Bots.Assign.{findaiclient}
use spaghettimod.Bots.Roster.{
  scan_slots, max_ai, add_to_owner, choose_skill, reuse_bot, fill_slot, use_slot, add_at, addai,
}

-- Without a slot to use, every slot has a bot with an owner.
scan_slots-all :
    (cs : List Member) (slots : List (Option ℤ)) (i : ℕ)
    → (scan_slots cs slots i).0 ≡ none
    → (scan_slots cs slots i).1 ≡ length slots
unfolding scan_slots
scan_slots-all cs [] i h = refl
scan_slots-all cs (slot ∷ slots) i h = ground (arith, scan_slots-all cs slots (suc i))

max_ai-le : (limit : ℤ) → max_ai limit ≤ maxbots
max_ai-le (pos n) = omega arith
max_ai-le (negsuc n) = omega arith

module _ {M : Type 0} (host : Host M) (env : Env) where
  add_to_owner-slots :
      (o : Option Member) (b : ℤ) (s : Bots M) → (add_to_owner host env o b s).slots ≡ s.slots
  add_to_owner-slots none b s = refl
  add_to_owner-slots (some owner) b s = refl

  choose_skill-slots : (skill : ℤ) (s : Bots M) → (choose_skill host env skill s).1.slots ≡ s.slots
  unfolding choose_skill
  choose_skill-slots (pos zero) s = refl
  choose_skill-slots (pos (suc n)) s = refl
  choose_skill-slots (negsuc n) s = refl

  length-fill_slot :
      (skill : ℤ) (cn : ℕ) (s : Bots M)
      → length (fill_slot host env skill cn s).slots ≡ length s.slots
  unfolding fill_slot
  length-fill_slot skill cn s =
      ap length (add_to_owner-slots (findaiclient s.clients none) _ _)
      ∙ length-set (choose_skill host env skill s).1.slots cn _
      ∙ ap length (choose_skill-slots skill s)

  length-use_slot :
      (skill : ℤ) (cn : ℕ) (slot : Option (Option ℤ)) (s : Bots M)
      → length (use_slot host env skill cn slot s).slots ≡ length s.slots
  unfolding reuse_bot
  length-use_slot skill cn (some (some b)) s =
      ap length (add_to_owner-slots (findaiclient s.clients none) b _)
  length-use_slot skill cn (some none) s = length-fill_slot skill cn s
  length-use_slot skill cn none s = length-fill_slot skill cn s

  length-add_at :
      (skill : ℤ) (cn : Option ℕ) (s : Bots M)
      → (cn ≡ none → length s.slots < maxbots)
      → length s.slots ≤ maxbots
      → length (add_at host env skill cn s).slots ≤ maxbots
  length-add_at skill none s room h =
      let wider : Bots M = record s { slots = s.slots ++ (none ∷ []) } in
      let more = room refl in
      omega
        (arith, length-fill_slot skill (length s.slots) wider, length-append s.slots (none ∷ []))
  length-add_at skill (some cn) s room h =
      omega (arith, length-use_slot skill cn (get_elem? s.slots cn) s)

  -- addai that answers false changes nothing, and whatever the limit that it is called with, it
  -- keeps the number of slots for bots at MAXBOTS at most.
  pub addai_bounds :
      (skill limit : ℤ) (s : Bots M)
      → length s.slots ≤ maxbots
      → (length (addai host env skill limit s).1.slots ≤ maxbots)
        × ((addai host env skill limit s).0 ≡ false → (addai host env skill limit s).1 ≡ s)
  unfolding addai
  addai_bounds skill limit s h =
      let r = scan_slots s.clients s.slots 0 in
      if-both (λ (x : Bool × Bots M). (length x.1.slots ≤ maxbots) × (x.0 ≡ false → x.1 ≡ s))
        (leb (max_ai limit) r.1) (false, s) (true, add_at host env skill r.0 s)
        (λ full. (h, λ e. refl))
        (λ room. (
          length-add_at skill r.0 s
              (λ none_free.
                ground (arith, scan_slots-all s.clients s.slots 0 none_free, max_ai-le limit))
              h,
          λ e. absurd (cc),
        ))
