-- ===== src/Game/Player/Pickup.antt =====
-- `canpickup` against `pickup`: an item that a player may take does not make anything worse.
use spaghettimod.Prelude.{
  ℕ, List, [], ◌∷◌, zero, suc, ◌≤◌, ◌≡◌, ◌≢◌, refl, true, false, arith, length, get_or, set,
  ℕ_discrete, Bool-cases, inl, inr, ltb, ◌||◌,
}
use spaghettimod.Prelude.Int.{ℤ, pos, ◌≤ℤ◌}
use spaghettimod.Game.Items.{numguns, i_shells, i_quad}
use spaghettimod.Game.Player.{FpsState, blue, canpickup, pickup, ammo_of, set_ammo}

-- The limits that the items keep to.
pub record IsValid (s : FpsState) : Type 0 where
  pub health_bound : s.health ≤ℤ pos s.maxhealth
  pub maxhealth_bound : s.maxhealth ≤ 200
  pub armour_bound : s.armour ≤ 200
  pub blue_bound : s.armourtype ≡ blue → s.armour ≤ 100
  pub quad_bound : s.quadmillis ≤ 30000
  pub guns : length s.ammo ≡ numguns

-- Nothing is lost from `s` to `t`.
pub record NoLoss (s t : FpsState) : Type 0 where
  pub health : s.health ≤ℤ t.health
  pub maxhealth : s.maxhealth ≤ t.maxhealth
  pub armour : s.armour ≤ t.armour
  pub quad : s.quadmillis ≤ t.quadmillis
  pub ammo : (gun : ℕ) → ammo_of s gun ≤ ammo_of t gun

ammo-set_up :
    (xs : List ℕ) (i v g : ℕ) → get_or xs i 0 ≤ v → get_or xs g 0 ≤ get_or (set xs i v) g 0
ammo-set_up [] i v g h = omega arith
ammo-set_up (x ∷ xs) zero v zero h = h
ammo-set_up (x ∷ xs) zero v (suc g) h = omega arith
ammo-set_up (x ∷ xs) (suc i) v zero h = omega arith
ammo-set_up (x ∷ xs) (suc i) v (suc g) h = ammo-set_up xs i v g h

health_refl : (h : ℤ) → h ≤ℤ h
health_refl h = omega arith

set_ammo-NoLoss : (s : FpsState) (gun n : ℕ) → ammo_of s gun ≤ n → NoLoss s (set_ammo s gun n)
set_ammo-NoLoss s gun n h = record {
  health = health_refl s.health;
  maxhealth = omega arith;
  armour = omega arith;
  quad = omega arith;
  ammo = λ g. ammo-set_up s.ammo gun n g h;
}

-- The other items leave the ammunition alone.
keep_ammo-NoLoss :
    (s t : FpsState)
    → (s.health ≤ℤ t.health) × (s.maxhealth ≤ t.maxhealth)
    → (s.armour ≤ t.armour) × (s.quadmillis ≤ t.quadmillis)
    → t.ammo ≡ s.ammo
    → NoLoss s t
keep_ammo-NoLoss s t h a e = record {
  health = h.0;
  maxhealth = h.1;
  armour = a.0;
  quad = a.1;
  ammo = λ g. rw e (omega arith);
}

-- What the claim is for each type.
abbrev Claim : FpsState → ℕ → Type 0
Claim s type = canpickup s type ≡ true → NoLoss s (pickup s type)

module _ (s : FpsState) (v : IsValid s) where
  shells : Claim s 8
  unfolding canpickup pickup
  shells c = set_ammo-NoLoss s 1 _ (ground arith)

  bullets : Claim s 9
  unfolding canpickup pickup
  bullets c = set_ammo-NoLoss s 2 _ (ground arith)

  rockets : Claim s 10
  unfolding canpickup pickup
  rockets c = set_ammo-NoLoss s 3 _ (ground arith)

  rounds : Claim s 11
  unfolding canpickup pickup
  rounds c = set_ammo-NoLoss s 4 _ (ground arith)

  grenades : Claim s 12
  unfolding canpickup pickup
  grenades c = set_ammo-NoLoss s 5 _ (ground arith)

  cartridges : Claim s 13
  unfolding canpickup pickup
  cartridges c = set_ammo-NoLoss s 6 _ (ground arith)

  health_pack : Claim s 14
  unfolding canpickup pickup
  health_pack c = keep_ammo-NoLoss s _ (ground arith) (omega arith) refl

  boost : Claim s 15
  unfolding canpickup pickup
  boost c = keep_ammo-NoLoss s _ (ground arith) (omega arith) refl

  green_armour : Claim s 16
  unfolding canpickup pickup
  green_armour c = keep_ammo-NoLoss s _ (health_refl s.health, omega arith) (ground arith) refl

  yellow_armour : Claim s 17
  unfolding canpickup pickup
  yellow_armour c = keep_ammo-NoLoss s _ (health_refl s.health, omega arith) (ground arith) refl

  quad_damage : Claim s 18
  unfolding canpickup pickup
  quad_damage c = keep_ammo-NoLoss s _ (health_refl s.health, omega arith) (ground arith) refl

-- The first item type that has the claim, else the next.
module _ (s : FpsState) (type : ℕ) where
  at_type : (k : ℕ) → Claim s k → (type ≢ k → Claim s type) → Claim s type
  at_type k found other = elim (ℕ_discrete type k) [ yes e ↦ rw e found | no ne ↦ other ne ]

-- Nothing but an item can be picked up.
only_items : (s : FpsState) (type : ℕ) → canpickup s type ≡ true → (8 ≤ type) × (type ≤ 18)
unfolding canpickup
only_items s type c = elim (Bool-cases (ltb type i_shells || ltb i_quad type)) [
  | inl out ↦ let f : false ≡ true = rw out at c in cc f
  | inr within ↦ ground arith
]

-- An item that `canpickup` allows makes nothing worse: health, its limit, armour points, quad time
-- and the ammunition of every gun are at least what they were, for a player within the limits of
-- the items.
pub pickup-NoLoss :
    (s : FpsState) (type : ℕ) → IsValid s → canpickup s type ≡ true → NoLoss s (pickup s type)
pickup-NoLoss s type v c =
    at_type s type 8 (shells s v)
      (λ n8. at_type s type 9 (bullets s v) (λ n9. at_type s type 10 (rockets s v) (λ n10.
        at_type s type 11 (rounds s v) (λ n11. at_type s type 12 (grenades s v) (λ n12.
          at_type s type 13 (cartridges s v) (λ n13. at_type s type 14 (health_pack s v) (λ n14.
            at_type s type 15 (boost s v) (λ n15. at_type s type 16 (green_armour s v) (λ n16.
              at_type s type 17 (yellow_armour s v) (λ n17.
                at_type s type 18 (quad_damage s v)
                  (λ n18 _. absurd (omega (arith, only_items s type c)))))))))))))
      c
