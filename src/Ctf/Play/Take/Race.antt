-- ===== src/Ctf/Play/Take/Race.antt =====
-- The version of a flag makes a request count once.
use mathlib.Core.Bool.{not}
use spaghettimod.Prelude.{
  ℕ, ◌+◌, ◌≤◌, ◌<◌, ◌≡◌, ◌≢◌, ◌||◌, refl, ap, ◌∙◌, ◌⊎◌, inl, inr, true, false, Option, none, some,
  arith, length, length-modify, get_or, get_or-modify_self, modify, Bool-cases, ltb, List, zero,
  suc, [], ◌∷◌,
}
use spaghettimod.Prelude.Int.{ℤ, pos, negsuc, eqb_ℤ}
use spaghettimod.Game.Names.{nonempty}
use spaghettimod.Game.Geometry.{Floats}
use spaghettimod.Game.World.{Client, Env, is_alive}
use spaghettimod.Ctf.Flag
use spaghettimod.Ctf.Flag.{Flag, bump_version, new_flag}
use spaghettimod.Ctf.State.{Ctf, addscore, ctfteamflag}
use spaghettimod.Ctf.Play.{
  flag_at, refused, takeflag_at, takeflag, scoreflag, score_return, score_respawn, score_versions,
  invis_from, draw_spawn, spawnflag,
}
use spaghettimod.Ctf.Play.Take.{
  Outcome, unchanged, taken, touched, returned, brought, takeflag_at-Outcome, addscore-flags,
  score_announce-flags,
}

module _ {F : Type 0} (fl : Floats F) (env : Env) where
  -- The version of a flag in a list.
  abbrev pub version_of : ℕ → List (Flag F) → ℕ
  version_of i fs = (get_or fs i (new_flag fl)).version

  -- A change that does not lower the version.
  abbrev Ages : (Flag F → Flag F) → Type 0
  Ages change = (f : Flag F) → f.version ≤ (change f).version

  modify-Ages :
      (fs : List (Flag F)) (i k : ℕ) (change : Flag F → Flag F)
      → Ages change
      → version_of i fs ≤ version_of i (modify fs k change)
  modify-Ages [] i k change a = omega arith
  modify-Ages (f ∷ fs) zero zero change a = a f
  modify-Ages (f ∷ fs) zero (suc k) change a = omega arith
  modify-Ages (f ∷ fs) (suc i) zero change a = omega arith
  modify-Ages (f ∷ fs) (suc i) (suc k) change a = modify-Ages fs i k change a

  modify-bump :
      (fs : List (Flag F)) (i : ℕ)
      → i < length fs
      → version_of i (modify fs i bump_version) ≡ version_of i fs + 1
  modify-bump fs i h =
      ap (λ (f : Flag F). f.version) (get_or-modify_self fs i bump_version (new_flag fl) h)

  return_home-Ages : (t : ℕ) → Ages (Flag.return_home {F = F} t)
  unfolding Flag.return_home
  return_home-Ages t f = omega arith

  score_return-version :
      (ci : Client F) (goal : ℕ) (relay : Option ℕ) (s : Ctf F) (i : ℕ)
      → (version_of i s.flags ≤ version_of i (score_return fl env ci goal relay s).flags)
        × (length (score_return fl env ci goal relay s).flags ≡ length s.flags)
  unfolding score_return
  score_return-version ci goal none s i = (
    modify-Ages s.flags i goal (Flag.return_home (invis_from fl env))
        (return_home-Ages (invis_from fl env)),
    length-modify s.flags goal (Flag.return_home (invis_from fl env)),
  )
  score_return-version ci goal (some j) s i = (
    modify-Ages s.flags i j (Flag.return_home (invis_from fl env))
        (return_home-Ages (invis_from fl env)),
    length-modify s.flags j (Flag.return_home (invis_from fl env)),
  )

  score_respawn-version :
      (goal : ℕ) (s : Ctf F) (i : ℕ)
      → (version_of i s.flags ≤ version_of i (score_respawn fl env goal s).flags)
        × (length (score_respawn fl env goal s).flags ≡ length s.flags)
  unfolding score_respawn spawnflag
  score_respawn-version goal s i =
      let place =
        (draw_spawn fl env 4 (length s.holdspawns) (flag_at fl env s goal).spawnindex
          (flag_at fl env s goal).spawnindex s.world).0 in
      let move = λ (f : Flag F). record f { spawnindex = place } in
      ground
        (arith, modify-Ages s.flags i goal move (λ f. omega arith), length-modify s.flags goal move)

  score_versions-version :
      (goal : ℕ) (relay : Option ℕ) (s : Ctf F)
      → goal < length s.flags
      → version_of goal s.flags < version_of goal (score_versions fl env goal relay s).flags
  unfolding score_versions
  score_versions-version goal none s h = omega (arith, modify-bump s.flags goal h)
  score_versions-version goal (some j) s h = omega (
    arith,
    modify-Ages s.flags goal j bump_version (λ f. omega arith),
    length-modify s.flags j bump_version,
    modify-bump (modify s.flags j bump_version) goal (rw (length-modify s.flags j bump_version) h),
  )

  scoreflag-version :
      (ci : Client F) (goal : ℕ) (relay : Option ℕ) (s : Ctf F)
      → goal < length s.flags
      → version_of goal s.flags < version_of goal (scoreflag fl env ci goal relay s).flags
  unfolding scoreflag
  scoreflag-version ci goal relay s h =
      let s2 = score_return fl env ci goal relay s in
      let (score, s3) = addscore (pos (ctfteamflag ci.team)) (pos 1) s2 in
      let s4 = score_respawn fl env goal s3 in
      let s6 = score_versions fl env goal relay s4 in
      let (v2, l2) = score_return-version ci goal relay s goal in
      let (v4, l4) = score_respawn-version goal s3 goal in
      let same = addscore-flags fl env (pos (ctfteamflag ci.team)) (pos 1) s2 in
      let h4 : goal < length s4.flags = omega (arith, l4, l2, ap length same, h) in
      omega (
        arith,
        v2,
        v4,
        ap (version_of goal) same,
        score_versions-version goal relay s4 h4,
        ap (version_of goal) (score_announce-flags fl env ci goal relay score s6),
      )

  -- A request that changes anything raises the version of its flag.
  Outcome-version :
      (ci : Client F) (i : ℕ) (version : ℤ) (s t : Ctf F)
      → i < length s.flags
      → Outcome fl env ci i version s t
      → (t ≡ s)
        ⊎ ((refused fl env ci version (flag_at fl env s i) ≡ false)
            × (version_of i s.flags < version_of i t.flags))
  Outcome-version ci i version s t h (unchanged e) = inl e
  Outcome-version ci i version s t h (taken team ok free e) =
      let change = λ (g : Flag F). bump_version (Flag.own ci.clientnum env.lastmillis team g) in
      let at_i = get_or-modify_self s.flags i change (new_flag fl) h in
      inr (
        ok,
        omega (
          arith,
          ap (version_of i) e,
          ap (λ (f : Flag F). f.version) at_i,
          own_version ci.clientnum env.lastmillis team (flag_at fl env s i),
        ),
      )
    where
      own_version :
          (cn : ℤ) (t : ℕ) (team : ℤ) (f : Flag F)
          → f.version < (bump_version (Flag.own cn t team f)).version
      own_version cn t team f = unfold Flag.own in omega arith
  Outcome-version ci i version s t h (touched ok e) =
      inr (ok, rw e (scoreflag-version ci i none s h))
  Outcome-version ci i version s t h (returned ok e) =
      let change = λ (g : Flag F). bump_version (Flag.return_home 0 g) in
      let at_i = get_or-modify_self s.flags i change (new_flag fl) h in
      inr (
        ok,
        omega (
          arith,
          ap (version_of i) e,
          ap (λ (f : Flag F). f.version) at_i,
          home_version (flag_at fl env s i),
        ),
      )
    where
      home_version : (f : Flag F) → f.version < (bump_version (Flag.return_home 0 f)).version
      home_version f = unfold Flag.return_home in omega arith
  Outcome-version ci i version s t h (brought j ok full e) =
      inr (ok, rw e (scoreflag-version ci i (some j) s h))

  refused_stale :
      (ci : Client F) (version : ℤ) (f : Flag F)
      → eqb_ℤ (pos f.version) version ≡ false
      → refused fl env ci version f ≡ true
  unfolding refused
  refused_stale ci version f h = ground arith

  refused_current :
      (ci : Client F) (version : ℤ) (f : Flag F)
      → refused fl env ci version f ≡ false
      → eqb_ℤ (pos f.version) version ≡ true
  unfolding refused
  refused_current ci version f h = ground arith

  -- A request for an older version does nothing.
  takeflag_stale :
      (ci : Client F) (i : ℕ) (version : ℤ) (s : Ctf F)
      → eqb_ℤ (pos (version_of i s.flags)) version ≡ false
      → takeflag fl env ci (pos i) version s ≡ s
  unfolding takeflag takeflag_at
  takeflag_stale ci i version s h =
      elim (Bool-cases (
        s.notgotflags
        || not (ltb i (length s.flags))
        || not (is_alive ci.life)
        || not (nonempty ci.team))) [
          | inl shut ↦ rw shut
          | inr open' ↦ rw (open', refused_stale ci version (flag_at fl env s i) h)
        ]

  -- If a request for a flag changed anything, a second request that names the same version does
  -- nothing, whoever makes it.
  pub takeflag_race :
      (ci cj : Client F) (i version : ℤ) (s : Ctf F)
      → takeflag fl env ci i version s ≢ s
      → takeflag fl env cj i version (takeflag fl env ci i version s)
        ≡ takeflag fl env ci i version s
  takeflag_race ci cj (negsuc k) version s d = unfold takeflag in refl
  takeflag_race ci cj (pos i) version s d =
      elim (Bool-cases (
        s.notgotflags
        || not (ltb i (length s.flags))
        || not (is_alive ci.life)
        || not (nonempty ci.team))) [
          | inl shut ↦ absurd (d (unfold takeflag in rw shut))
          | inr ok ↦
              let opens : takeflag fl env ci (pos i) version s ≡ takeflag_at fl env ci i version s =
                unfold takeflag in rw ok in
              elim (Outcome-version ci i version s (takeflag_at fl env ci i version s)
                (ground arith) (takeflag_at-Outcome fl env ci i version s)) [
                  | inl same ↦ absurd (d (opens ∙ same))
                  | inr (accepted, newer) ↦ rw opens (
                      takeflag_stale cj i version (takeflag_at fl env ci i version s)
                        (stale (refused_current ci version (flag_at fl env s i) accepted) newer))
                ]
        ]
    where
      stale : {a b : ℕ} → eqb_ℤ (pos a) version ≡ true → a < b → eqb_ℤ (pos b) version ≡ false
      stale h k = ground arith
