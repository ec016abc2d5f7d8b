-- ===== src/Ctf/Play/Take.antt =====
-- `takeflag` by its branches.
pub mod Race
pub mod One
use mathlib.Core.Bool.{not}
use spaghettimod.Prelude.{
  ℕ, zero, suc, ◌+◌, ◌≤◌, ◌<◌, ◌≡◌, ◌≢◌, refl, ap, ◌∙◌, ◌⊎◌, inl, inr, Bool, true, false, ◌&&◌,
  ◌||◌, List, Option, none, some, arith, length, length-modify, get_or, get_or-modify_self, modify,
  ◌==◌, Bool-cases, Option-cases, ltb, if◌then◌else◌,
}
use spaghettimod.Prelude.Int.{ℤ, pos, negsuc, eqb_ℤ, eqb_ℤ_iff, nonneg, ◌+ℤ◌, leb_ℤ}
use spaghettimod.Game.Modes.{m_hold, m_protect}
use spaghettimod.Game.Geometry.{Floats}
use spaghettimod.Game.World.{Client, Env, World, is_alive}
use spaghettimod.Ctf.Flag
use spaghettimod.Ctf.Flag.{Flag, nobody, has_owner, bump_version, new_flag}
use spaghettimod.Ctf.State.{Ctf, addscore, carried_by, tell, change_flag, ctfteamflag, totalscore}
use spaghettimod.Ctf.State.Carry.{
  carried, holds, OneEach, Releases, carried_by-none, carried_by-some, carried-modify_le,
  carried-give,
}
use spaghettimod.Ctf.Play.{
  flag_at, spawnflag, scoreflag, refused, takeflag_at, takeflag, draw_spawn, invis_from, same_bool,
  score_return, score_respawn, score_versions, score_announce,
}

module _ {F : Type 0} (fl : Floats F) (env : Env) where
  pub spawnflag-carried :
      (i : ℕ) (s : Ctf F) (n : ℕ)
      → carried (pos n) (spawnflag fl env i s).flags ≤ carried (pos n) s.flags
  unfolding spawnflag
  spawnflag-carried i s n = ground (
    arith,
    carried-modify_le n s.flags i
        (λ f. record f {
          spawnindex =
              (draw_spawn fl env 4 (length s.holdspawns) (flag_at fl env s i).spawnindex
                (flag_at fl env s i).spawnindex s.world).0;
        })
        (λ f. inl refl),
  )

  pub addscore-flags : (team n : ℤ) (s : Ctf F) → (addscore team n s).1.flags ≡ s.flags
  unfolding addscore
  addscore-flags team n s = ground arith

  pub return_home-Releases : (t : ℕ) → Releases (Flag.return_home {F = F} t)
  unfolding Flag.return_home
  return_home-Releases t f = inr refl

  pub score_return-carried :
      (ci : Client F) (goal : ℕ) (relay : Option ℕ) (s : Ctf F) (n : ℕ)
      → carried (pos n) (score_return fl env ci goal relay s).flags ≤ carried (pos n) s.flags
  unfolding score_return
  score_return-carried ci goal none s n =
      carried-modify_le n s.flags goal (Flag.return_home (invis_from fl env))
        (return_home-Releases (invis_from fl env))
  score_return-carried ci goal (some j) s n =
      carried-modify_le n s.flags j (Flag.return_home (invis_from fl env))
        (return_home-Releases (invis_from fl env))

  pub score_respawn-carried :
      (goal : ℕ) (s : Ctf F) (n : ℕ)
      → carried (pos n) (score_respawn fl env goal s).flags ≤ carried (pos n) s.flags
  unfolding score_respawn
  score_respawn-carried goal s n = ground (arith, spawnflag-carried goal s n)

  bump-carried :
      (i : ℕ) (s : Ctf F) (n : ℕ)
      → carried (pos n) (modify s.flags i bump_version) ≤ carried (pos n) s.flags
  bump-carried i s n = carried-modify_le n s.flags i bump_version (λ f. inl refl)

  pub score_versions-carried :
      (goal : ℕ) (relay : Option ℕ) (s : Ctf F) (n : ℕ)
      → carried (pos n) (score_versions fl env goal relay s).flags ≤ carried (pos n) s.flags
  unfolding score_versions
  score_versions-carried goal none s n = bump-carried goal s n
  score_versions-carried goal (some j) s n =
      omega (arith, bump-carried goal (change_flag j bump_version s) n, bump-carried j s n)

  pub score_announce-flags :
      (ci : Client F) (goal : ℕ) (relay : Option ℕ) (score : ℤ) (s : Ctf F)
      → (score_announce fl env ci goal relay score s).flags ≡ s.flags
  unfolding score_announce
  score_announce-flags ci goal relay score s = elim (Bool-cases (leb_ℤ (pos 10) score)) [
    | inl e ↦ rw e
    | inr e ↦ rw e
  ]

  -- A score gives nobody a flag.
  pub scoreflag-carried :
      (ci : Client F) (goal : ℕ) (relay : Option ℕ) (s : Ctf F) (n : ℕ)
      → carried (pos n) (scoreflag fl env ci goal relay s).flags ≤ carried (pos n) s.flags
  unfolding scoreflag
  scoreflag-carried ci goal relay s n =
      let s2 = score_return fl env ci goal relay s in
      let (score, s3) = addscore (pos (ctfteamflag ci.team)) (pos 1) s2 in
      let s4 = score_respawn fl env goal s3 in
      let s6 = score_versions fl env goal relay s4 in
      omega (
        arith,
        ap (carried (pos n)) (score_announce-flags ci goal relay score s6),
        score_versions-carried goal relay s4 n,
        score_respawn-carried goal s3 n,
        ap (carried (pos n)) (addscore-flags (pos (ctfteamflag ci.team)) (pos 1) s2),
        score_return-carried ci goal relay s n,
      )

  -- The branches of `takeflag` that change something, with their conditions; `t` is the new state.
  pub data Outcome (ci : Client F) (i : ℕ) (version : ℤ) (s t : Ctf F) : Type 0 where
    unchanged : t ≡ s → Outcome ci i version s t
    taken :
        (ownteam : ℤ)
        → refused fl env ci version (flag_at fl env s i) ≡ false
        → carried_by ci.clientnum s.flags ≡ none
        → t.flags
          ≡ modify s.flags i (λ g. bump_version (Flag.own ci.clientnum env.lastmillis ownteam g))
        → Outcome ci i version s t
    touched :
        refused fl env ci version (flag_at fl env s i) ≡ false
        → t ≡ scoreflag fl env ci i none s
        → Outcome ci i version s t
    returned :
        refused fl env ci version (flag_at fl env s i) ≡ false
        → t.flags ≡ modify s.flags i (λ g. bump_version (Flag.return_home 0 g))
        → Outcome ci i version s t
    brought :
        (j : ℕ)
        → refused fl env ci version (flag_at fl env s i) ≡ false
        → carried_by ci.clientnum s.flags ≡ some j
        → t ≡ scoreflag fl env ci i (some j) s
        → Outcome ci i version s t

  pub takeflag_at-Outcome :
      (ci : Client F) (i : ℕ) (version : ℤ) (s : Ctf F)
      → Outcome ci i version s (takeflag_at fl env ci i version s)
  unfolding takeflag_at
  takeflag_at-Outcome ci i version s =
      elim (Bool-cases (refused fl env ci version (flag_at fl env s i))) [
        | inl shut ↦ unchanged (rw shut)
        | inr ok ↦
            elim (Bool-cases (
              m_hold env.gamemode
              || same_bool fl env (m_protect env.gamemode)
                  (eqb_ℤ (flag_at fl env s i).team (pos (ctfteamflag ci.team))))) [
                    | inl own ↦ elim (Option-cases (carried_by ci.clientnum s.flags)) [
                      | inl free ↦
                          taken
                            (if m_hold env.gamemode then pos (ctfteamflag ci.team) else negsuc 0) ok
                            free (rw (ok, own, free))
                      | inr (j, full) ↦ unchanged (rw (ok, own, full))
                    ]
                    | inr other ↦ elim (Bool-cases (m_protect env.gamemode)) [
                      | inl protect ↦ elim (Bool-cases ((flag_at fl env s i).invistime == 0)) [
                        | inl seen ↦ touched ok (rw (ok, other, protect, seen))
                        | inr hidden ↦ unchanged (rw (ok, other, protect, hidden))
                      ]
                      | inr ctf ↦ elim (Bool-cases (not ((flag_at fl env s i).droptime == 0))) [
                        | inl dropped ↦ returned ok (rw (ok, other, ctf, dropped))
                        | inr home ↦ elim (Option-cases (carried_by ci.clientnum s.flags)) [
                          | inl free ↦ unchanged (rw (ok, other, ctf, home, free))
                          | inr (j, full) ↦ brought j ok full (rw (ok, other, ctf, home, full))
                        ]
                      ]
                    ]
                  ]
      ]
