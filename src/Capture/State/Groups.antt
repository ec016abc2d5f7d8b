-- ===== src/Capture/State/Groups.antt =====
-- Bases of one group have one ammunition type.
use spaghettimod.Prelude.{
  ℕ, ◌≡◌, refl, ◌⊎◌, inl, inr, true, false, List, [], ◌∷◌, ◌++◌, none, some, arith, length, leb,
  All, All-append, if-both, Option-cases,
}
use spaghettimod.Prelude.Int.{ℤ, pos, eqb_ℤ, eqb_ℤ_iff}
use spaghettimod.Game.Geometry.{Floats, Vec}
use spaghettimod.Game.World.{World}
use spaghettimod.Capture.Base.{BaseInfo, new_base}
use spaghettimod.Capture.State.{
  Capture, group_type, group_of, first_type, choose_type, addbase, capture_maxbases,
}

module _ {F : Type 0} where
  -- The base has the type of the first base of its group in the list.
  abbrev pub LikeFirst : List (BaseInfo F) → BaseInfo F → Type 0
  LikeFirst bs b = eqb_ℤ b.ammogroup (pos 0) ≡ false → group_type b.ammogroup bs ≡ some b.ammotype

  -- Every base that is in a group has the type of the group's first base.
  abbrev pub Grouped : List (BaseInfo F) → Type 0
  Grouped bs = All (LikeFirst bs) bs

  group_type-append_some :
      (g : ℤ) (bs cs : List (BaseInfo F)) (type : ℕ)
      → group_type g bs ≡ some type
      → group_type g (bs ++ cs) ≡ some type
  unfolding group_type
  group_type-append_some g [] cs type e = absurd (cc)
  group_type-append_some g (b ∷ bs) cs type e = ground (arith, group_type-append_some g bs cs type)

  group_type-append_none :
      (g : ℤ) (bs : List (BaseInfo F)) (c : BaseInfo F)
      → group_type g bs ≡ none
      → eqb_ℤ g c.ammogroup ≡ true
      → group_type g (bs ++ (c ∷ [])) ≡ some c.ammotype
  unfolding group_type
  group_type-append_none g [] c e h = rw h refl
  group_type-append_none g (b ∷ bs) c e h = ground (arith, group_type-append_none g bs c)

  All-weaken :
      (bs cs ds : List (BaseInfo F)) → All (LikeFirst bs) ds → All (LikeFirst (bs ++ cs)) ds
  All-weaken bs cs [] h = tt
  All-weaken bs cs (d ∷ ds) h =
      (λ e. group_type-append_some d.ammogroup bs cs d.ammotype (h.0 e), All-weaken bs cs ds h.1)

module _ {F : Type 0} (fl : Floats F) where
  -- The type that is chosen is that of the group's first base, if the group has one.
  choose_type-LikeFirst :
      (g : ℤ) (bs : List (BaseInfo F)) (drawn : ℕ) (w : World F)
      → eqb_ℤ g (pos 0) ≡ false
      → (group_type g bs ≡ none) ⊎ (group_type g bs ≡ some (choose_type fl g bs drawn w).0)
  unfolding choose_type
  choose_type-LikeFirst g bs drawn w h = elim (Option-cases (group_type g bs)) [
    | inl e ↦ inl e
    | inr (type, e) ↦ inr (rw (h, e, choose_type) refl)
  ]

  -- `addbase` keeps the bases of each group alike: they all have the type of the first.
  pub addbase-Grouped :
      (ammotype : ℤ) (o : Vec F) (s : Capture F)
      → Grouped s.bases
      → Grouped (addbase fl ammotype o s).bases
  unfolding addbase
  addbase-Grouped ammotype o s h =
      if-both (λ (u : Capture F). Grouped u.bases) (leb capture_maxbases (length s.bases)) s _
        (λ e. h)
        (λ e.
          All-append (LikeFirst (s.bases ++ (b ∷ []))) s.bases (b ∷ [])
            (All-weaken s.bases (b ∷ []) s.bases h) (like, tt))
    where
      drawn : ℕ × World F
      drawn = first_type fl ammotype s.world

      b : BaseInfo F
      b = record (new_base fl) {
        ammogroup = group_of fl ammotype;
        ammotype = (choose_type fl (group_of fl ammotype) s.bases drawn.0 drawn.1).0;
        o = o;
      }

      like : LikeFirst (s.bases ++ (b ∷ [])) b
      like e = elim (choose_type-LikeFirst b.ammogroup s.bases drawn.0 drawn.1 e) [
        | inl first ↦
            group_type-append_none b.ammogroup s.bases b first
              ((eqb_ℤ_iff b.ammogroup b.ammogroup).1 refl)
        | inr more ↦ group_type-append_some b.ammogroup s.bases (b ∷ []) b.ammotype more
      ]
