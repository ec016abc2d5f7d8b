-- ===== src/Ctf/Play/Drop.antt =====
-- Losing flags: `dropflag`, and with it `leavegame` and `died`.
use spaghettimod.Prelude.{
  ℕ, zero, suc, ◌<◌, ◌≡◌, ◌≢◌, ◌&&◌, refl, sym, ap, ◌∙◌, inl, inr, true, false, List, [], ◌∷◌,
  Option, none, some, arith, length, length-modify, get_or, get_or-modify_self, get_or-modify_ne,
  modify, Bool-cases, ℕ_discrete,
}
use spaghettimod.Prelude.Int.{ℤ, pos, eqb_ℤ, eqb_ℤ_iff}
use spaghettimod.Prelude.Loop.{for_each, for_each_keep, for_each_count}
use spaghettimod.Game.Modes.{m_protect}
use spaghettimod.Game.Geometry.{Floats, quantized, dequantized}
use spaghettimod.Game.World.{Client, Env}
use spaghettimod.Ctf.Flag
use spaghettimod.Ctf.Flag.{Flag, nobody, bump_version, new_flag}
use spaghettimod.Ctf.State.{Ctf, insidebase}
use spaghettimod.Ctf.State.Carry.{carried}
use spaghettimod.Ctf.Play.{flag_at, drop_round, dropflag}

module _ {F : Type 0} (fl : Floats F) (env : Env) where
  -- A round leaves the flags, or takes the flag of its index from the client.
  data Round (ci : Client F) (i : ℕ) (s t : Ctf F) : Type 0 where
    passed :
        eqb_ℤ (flag_at fl env s i).owner ci.clientnum ≡ false → t.flags ≡ s.flags → Round ci i s t
    released :
        (change : Flag F → Flag F)
        → ((f : Flag F) → (change f).owner ≡ nobody)
        → eqb_ℤ (flag_at fl env s i).owner ci.clientnum ≡ true
        → t.flags ≡ modify s.flags i change
        → Round ci i s t

  drop_round-Round :
      (ci : Client F) (dropper : Option ℤ) (i : ℕ) (s : Ctf F)
      → Round ci i s (drop_round fl env ci dropper i s)
  unfolding drop_round Flag.drop Flag.return_home
  drop_round-Round ci none i s = elim (Bool-cases (eqb_ℤ (flag_at fl env s i).owner ci.clientnum)) [
    | inl own ↦
        elim (Bool-cases (m_protect env.gamemode && insidebase fl (flag_at fl env s i) ci.o)) [
          | inl back ↦
              released (λ f. bump_version (Flag.return_home 0 f)) (λ f. refl) own (rw (own, back))
          | inr away ↦
              released
                (λ f. bump_version (
                  Flag.drop (dequantized fl (quantized fl ci.o)) env.lastmillis ci.clientnum false
                    f))
                (λ f. refl) own (rw (own, away))
        ]
    | inr other ↦ passed other (rw other)
  ]
  drop_round-Round ci (some cn) i s =
      elim (Bool-cases (eqb_ℤ (flag_at fl env s i).owner ci.clientnum)) [
        | inl own ↦
            elim (Bool-cases (m_protect env.gamemode && insidebase fl (flag_at fl env s i) ci.o)) [
              | inl back ↦
                  released (λ f. bump_version (Flag.return_home 0 f)) (λ f. refl) own
                    (rw (own, back))
              | inr away ↦
                  released
                    (λ f.
                      bump_version
                        (Flag.drop (dequantized fl (quantized fl ci.o)) env.lastmillis cn true f))
                    (λ f. refl) own (rw (own, away))
            ]
        | inr other ↦ passed other (rw other)
      ]

  -- The flags below `i` are not the client's.
  abbrev Cleared : Client F → ℕ → ℕ → Ctf F → Type 0
  Cleared ci len i s =
      (length s.flags ≡ len)
      × ((j : ℕ) → j < i → eqb_ℤ (get_or s.flags j (new_flag fl)).owner ci.clientnum ≡ false)

  Round-Cleared :
      (ci : Client F) (len i n : ℕ) (s t : Ctf F)
      → ci.clientnum ≡ pos n
      → i < len
      → Cleared ci len i s
      → Round ci i s t
      → Cleared ci len (suc i) t
  Round-Cleared ci len i n s t cn h c (passed other e) = (ap length e ∙ c.0, at)
    where
      at : (j : ℕ) → j < suc i → eqb_ℤ (get_or t.flags j (new_flag fl)).owner ci.clientnum ≡ false
      at j k = elim (ℕ_discrete j i) [
        | yes same ↦ rw (e, same) other
        | no below ↦ rw e (c.1 j (omega arith))
      ]
  Round-Cleared ci len i n s t cn h c (released change gone own e) =
      (ap length e ∙ length-modify s.flags i change ∙ c.0, at)
    where
      at : (j : ℕ) → j < suc i → eqb_ℤ (get_or t.flags j (new_flag fl)).owner ci.clientnum ≡ false
      at j k = elim (ℕ_discrete j i) [
        | yes same ↦ rw (
          e,
          same,
          get_or-modify_self s.flags i change (new_flag fl) (omega (arith, c.0)),
          gone,
          cn,
        )
        | no below ↦
            rw (e, get_or-modify_ne s.flags i j change (new_flag fl) (λ q. below (sym q)))
              (c.1 j (omega arith))
      ]

  Cleared-carried :
      (cn : ℤ) (fs : List (Flag F))
      → ((j : ℕ) → j < length fs → eqb_ℤ (get_or fs j (new_flag fl)).owner cn ≡ false)
      → carried cn fs ≡ 0
  Cleared-carried cn [] c = refl
  Cleared-carried cn (f ∷ fs) c =
      ground (arith, c 0 (omega arith), Cleared-carried cn fs (λ j h. c (suc j) (omega arith)))

  carried-modify_other :
      (m : ℤ) (fs : List (Flag F)) (i : ℕ) (change : Flag F → Flag F)
      → eqb_ℤ (get_or fs i (new_flag fl)).owner m ≡ false
      → ((f : Flag F) → eqb_ℤ (change f).owner m ≡ false)
      → carried m (modify fs i change) ≡ carried m fs
  carried-modify_other m [] i change a b = refl
  carried-modify_other m (f ∷ fs) zero change a b = rw (a, b f)
  carried-modify_other m (f ∷ fs) (suc i) change a b =
      omega (arith, carried-modify_other m fs i change a b)

  Round-others :
      (ci : Client F) (i m : ℕ) (s t : Ctf F)
      → ci.clientnum ≢ pos m
      → Round ci i s t
      → carried (pos m) t.flags ≡ carried (pos m) s.flags
  Round-others ci i m s t ne (passed other e) = ap (carried (pos m)) e
  Round-others ci i m s t ne (released change gone own e) =
      ap (carried (pos m)) e
      ∙ carried-modify_other (pos m) s.flags i change
          (ground (
            arith,
            eqb_ℤ_iff (flag_at fl env s i).owner ci.clientnum,
            eqb_ℤ_iff (flag_at fl env s i).owner (pos m),
          ))
          (λ f. rw (gone f))

  -- When the flags are known, a client that drops its flags carries none afterwards, and every other
  -- client carries as many as before.
  pub dropflag-carried :
      (ci : Client F) (dropper : Option ℤ) (s : Ctf F) (n m : ℕ)
      → s.notgotflags ≡ false
      → ci.clientnum ≡ pos n
      → n ≢ m
      → (carried (pos n) (dropflag fl env ci dropper s).flags ≡ 0)
        × (carried (pos m) (dropflag fl env ci dropper s).flags ≡ carried (pos m) s.flags)
  unfolding dropflag
  dropflag-carried ci dropper s n m got cn ne = simp got (none_left, others)
    where
      body : ℕ → Ctf F → Ctf F
      body = drop_round fl env ci dropper

      cleared : Cleared ci (length s.flags) (length s.flags) (for_each (length s.flags) body s)
      cleared =
          for_each_count (Cleared ci (length s.flags)) body (length s.flags)
            (λ i t h c.
              Round-Cleared ci (length s.flags) i n t (body i t) cn h c
                (drop_round-Round ci dropper i t))
            s (refl, λ j h. elim h [ ])

      none_left : carried (pos n) (for_each (length s.flags) body s).flags ≡ 0
      none_left = rw (← cn) (
          Cleared-carried ci.clientnum (for_each (length s.flags) body s).flags
            (λ j h. cleared.1 j (omega (arith, cleared.0))))

      others : carried (pos m) (for_each (length s.flags) body s).flags ≡ carried (pos m) s.flags
      others =
          for_each_keep (λ t. carried (pos m) t.flags ≡ carried (pos m) s.flags) body
            (λ i t h.
              Round-others ci i m t (body i t) (ground arith) (drop_round-Round ci dropper i t) ∙ h)
            (length s.flags) s refl
