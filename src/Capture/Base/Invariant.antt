-- ===== src/Capture/Base/Invariant.antt =====
-- The invariant of a base: what its names and counters say of one another.
use spaghettimod.Prelude.{
  ℕ, ◌+◌, ◌-◌, ◌<◌, ◌≡◌, refl, inl, inr, true, false, [], ◌∷◌, arith, length, take_all, Bool-cases,
  ltb, ◌==◌, ◌&&◌, ◌||◌,
}
use mathlib.Core.Bool.{not}
use spaghettimod.Prelude.Int.{ℤ, pos, ◌+ℤ◌, nonneg, ltb_ℤ, leb_ℤ}
use spaghettimod.Game.Names.{Name, same_name, same_name_iff, nonempty, copystring, max_str_len}
use spaghettimod.Game.Geometry.{Floats}
use spaghettimod.Capture.Base.{BaseInfo, new_base, enter, leave, occupy, conversion_limit}

-- Without an enemy nothing is converted; the conversion is not complete; the enemy is another team
-- than the owner.
pub record Contest (owner enemy : Name) (enemies : ℕ) (converted : ℤ) : Type 0 where
  pub no_enemy : nonempty enemy ≡ false → (enemies ≡ 0) × (converted ≡ pos 0)
  pub started : nonneg converted ≡ true
  pub unfinished : ltb_ℤ converted (pos (conversion_limit owner)) ≡ true
  pub rivals : nonempty owner ≡ true → same_name owner enemy ≡ false
  pub short : length enemy < max_str_len

abbrev pub IsValid : {F : Type 0} → BaseInfo F → Type 0
IsValid b = Contest b.owner b.enemy b.enemies b.converted

copystring_short : (team : Name) → length team < max_str_len → copystring max_str_len team ≡ team
unfolding copystring
copystring_short team h = take_all 259 team (omega arith)

below_limit : (owner : Name) → ltb_ℤ (pos 0) (pos (conversion_limit owner)) ≡ true
below_limit owner = elim (Bool-cases (nonempty owner)) [ inl o ↦ rw o refl | inr o ↦ rw o refl ]

-- A team that is not the owner starts to convert the base.
challenge :
    (owner team : Name) (enemies : ℕ)
    → nonempty team ≡ true
    → length team < max_str_len
    → same_name owner team ≡ false
    → Contest owner team enemies (pos 0)
challenge owner team enemies n h other = record {
  no_enemy = λ e. absurd (ground (arith, n, e));
  started = refl;
  unfinished = below_limit owner;
  rivals = λ e. other;
  short = h;
}

-- Nobody challenges the owner.
unchallenged : (owner : Name) → Contest owner [] 0 (pos 0)
unchallenged owner = record {
  no_enemy = λ e. (refl, refl);
  started = refl;
  unfinished = below_limit owner;
  rivals = alone owner;
  short = omega arith;
}
  where
    alone : (owner : Name) → nonempty owner ≡ true → same_name owner [] ≡ false
    alone [] e = absurd (cc)
    alone (x ∷ xs) e = unfold same_name in refl

-- More or fewer of the enemies stand there.
recount :
    (owner enemy : Name) (n m : ℕ) (converted : ℤ)
    → nonempty enemy ≡ true
    → Contest owner enemy n converted
    → Contest owner enemy m converted
recount owner enemy n m converted some v = record {
  no_enemy = λ e. absurd (ground (arith, some, e));
  started = v.started;
  unfinished = v.unfinished;
  rivals = v.rivals;
  short = v.short;
}

named :
    (enemy team : Name) → same_name enemy team ≡ true → nonempty team ≡ true → nonempty enemy ≡ true
named enemy team e n = rw ((same_name_iff enemy team).0 e) n

no_owner : (team : Name) → nonempty team ≡ true → same_name [] team ≡ false
no_owner [] e = absurd (cc)
no_owner (x ∷ xs) e = unfold same_name in refl

above : (c : ℤ) → leb_ℤ c (pos 0) ≡ false → nonneg c ≡ true
above c h = ground arith

falls :
    (c units : ℤ) (limit : ℕ)
    → ltb_ℤ units (pos 0) ≡ true
    → ltb_ℤ c (pos limit) ≡ true
    → ltb_ℤ (c +ℤ units) (pos limit) ≡ true
unfolding ◌+ℤ◌
falls c units limit h k = ground arith

rises : (c units : ℤ) → ltb_ℤ units (pos 0) ≡ false → nonneg c ≡ true → nonneg (c +ℤ units) ≡ true
unfolding ◌+ℤ◌
rises c units h k = ground arith

module _ {F : Type 0} where
  pub new_base-IsValid : (fl : Floats F) → IsValid (new_base fl)
  new_base-IsValid fl = unchallenged []

  pub enter-IsValid :
      (team : Name) (b : BaseInfo F)
      → nonempty team ≡ true
      → length team < max_str_len
      → IsValid b
      → IsValid (enter team b).1
  unfolding enter
  enter-IsValid team b n h v = elim (Bool-cases (same_name b.owner team)) [
    | inl own ↦ rw own v
    | inr other ↦ elim (Bool-cases (b.enemies == 0)) [
      | inl free ↦ elim (Bool-cases (same_name b.enemy team)) [
        | inl again ↦
            rw (other, free, again)
              (recount b.owner b.enemy b.enemies (b.enemies + 1) b.converted
                (named b.enemy team again n) v)
        | inr fresh ↦
            rw (other, free, fresh, copystring_short team h)
              (challenge b.owner team (b.enemies + 1) n h other)
      ]
      | inr held ↦ elim (Bool-cases (same_name b.enemy team)) [
        | inl again ↦
            rw (other, held, again)
              (recount b.owner b.enemy b.enemies (b.enemies + 1) b.converted
                (named b.enemy team again n) v)
        | inr third ↦ rw (other, held, third) v
      ]
    ]
  ]

  pub leave-IsValid :
      (team : Name) (b : BaseInfo F) → nonempty team ≡ true → IsValid b → IsValid (leave team b).1
  unfolding leave
  leave-IsValid team b n v = elim (Bool-cases (same_name b.owner team && ltb 0 b.owners)) [
    | inl own ↦ rw own v
    | inr other ↦ elim (Bool-cases (not (same_name b.enemy team) || b.enemies == 0)) [
      | inl stays ↦ rw (other, stays) v
      | inr goes ↦
          rw (other, goes)
            (recount b.owner b.enemy b.enemies (b.enemies - 1) b.converted
              (named b.enemy team (ground (arith, goes)) n) v)
    ]
  ]

  counted :
      (b : BaseInfo F) (c : ℤ)
      → nonempty b.enemy ≡ true
      → IsValid b
      → nonneg c ≡ true
      → ltb_ℤ c (pos (conversion_limit b.owner)) ≡ true
      → Contest b.owner b.enemy b.enemies c
  counted b c some v low high = record {
    no_enemy = λ e. absurd (ground (arith, some, e));
    started = low;
    unfinished = high;
    rivals = v.rivals;
    short = v.short;
  }

  pub occupy-IsValid :
      (team : Name) (units : ℤ) (b : BaseInfo F)
      → nonempty team ≡ true
      → IsValid b
      → IsValid (occupy team units b).1
  unfolding occupy
  occupy-IsValid team units b n v = elim (Bool-cases (same_name b.enemy team)) [
    | inr other ↦ rw other v
    | inl same ↦
        let short : length team < max_str_len =
          rw (← (same_name_iff b.enemy team).0 same) v.short in
        elim (Bool-cases (ltb_ℤ units (pos 0))) [
          | inl away ↦ elim (Bool-cases (leb_ℤ (b.converted +ℤ units) (pos 0))) [
            | inl lost ↦ rw (same, away, lost) (unchallenged b.owner)
            | inr kept ↦
                rw (same, away, kept)
                  (counted b (b.converted +ℤ units) (named b.enemy team same n) v
                    (above (b.converted +ℤ units) kept)
                    (falls b.converted units (conversion_limit b.owner) away v.unfinished))
          ]
          | inr on ↦
              elim (Bool-cases (ltb_ℤ (b.converted +ℤ units) (pos (conversion_limit b.owner)))) [
                | inl below ↦
                    rw (same, on, below)
                      (counted b (b.converted +ℤ units) (named b.enemy team same n) v
                        (rises b.converted units on v.started) below)
                | inr full ↦ elim (Bool-cases (nonempty b.owner)) [
                  | inl enemys ↦
                      rw (same, on, full, enemys, copystring_short team short)
                        (challenge [] team b.enemies n short (no_owner team n))
                  | inr free ↦
                      rw (same, on, full, free) (unchallenged (copystring max_str_len team))
                ]
              ]
        ]
  ]
