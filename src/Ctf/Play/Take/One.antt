-- ===== src/Ctf/Play/Take/One.antt =====
-- A client never carries two flags.
use spaghettimod.Prelude.{
  ℕ, ◌+◌, ◌≤◌, ◌<◌, ◌≡◌, ◌||◌, refl, inl, inr, false, none, some, arith, length, Bool-cases, ltb,
}
use mathlib.Core.Bool.{not}
use spaghettimod.Prelude.Int.{ℤ, pos, negsuc, eqb_ℤ, eqb_ℤ_iff}
use spaghettimod.Game.Names.{nonempty}
use spaghettimod.Game.Geometry.{Floats}
use spaghettimod.Game.World.{Client, Env, is_alive}
use spaghettimod.Ctf.Flag
use spaghettimod.Ctf.Flag.{Flag, has_owner, bump_version, new_flag}
use spaghettimod.Ctf.State.{Ctf}
use spaghettimod.Ctf.State.Carry.{
  carried, holds, OneEach, carried_by-none, carried-modify_le, carried-give,
}
use spaghettimod.Ctf.Play.{flag_at, refused, takeflag_at, takeflag}
use spaghettimod.Ctf.Play.Take.{
  Outcome, unchanged, taken, touched, returned, brought, takeflag_at-Outcome, scoreflag-carried,
  return_home-Releases,
}

module _ {F : Type 0} (fl : Floats F) (env : Env) where
  -- A flag that is carried is refused.
  refused_carried :
      (ci : Client F) (version : ℤ) (f : Flag F)
      → refused fl env ci version f ≡ false
      → has_owner f ≡ false
  unfolding refused
  refused_carried ci version f h = ground arith

  own-owner :
      (cn : ℤ) (t : ℕ) (team : ℤ) (f : Flag F) → (bump_version (Flag.own cn t team f)).owner ≡ cn
  unfolding Flag.own
  own-owner cn t team f = refl

  Outcome-OneEach :
      (ci : Client F) (i : ℕ) (version : ℤ) (s t : Ctf F)
      → i < length s.flags
      → OneEach s.flags
      → Outcome fl env ci i version s t
      → OneEach t.flags
  Outcome-OneEach ci i version s t h one (unchanged e) n = rw e (one n)
  Outcome-OneEach ci i version s t h one (taken team ok free e) n =
      let change = λ (g : Flag F). bump_version (Flag.own ci.clientnum env.lastmillis team g) in
      let given =
        carried-give ci.clientnum s.flags i change (new_flag fl) h
          (refused_carried ci version (flag_at fl env s i) ok)
          (own-owner ci.clientnum env.lastmillis team) n in
      rw (e, given) (fits n)
    where
      fits :
          (n : ℕ)
          → holds
                (pos n)
                (bump_version (Flag.own ci.clientnum env.lastmillis team (flag_at fl env s i)))
              + carried (pos n) s.flags
            ≤ 1
      fits n = elim (Bool-cases (eqb_ℤ ci.clientnum (pos n))) [
        | inl same ↦
            let who = (eqb_ℤ_iff ci.clientnum (pos n)).0 same in
            let none_yet : carried (pos n) s.flags ≡ 0 =
              rw (← who) (carried_by-none ci.clientnum s.flags free) in
            ground (arith, none_yet)
        | inr other ↦
            let owner = own-owner ci.clientnum env.lastmillis team (flag_at fl env s i) in
            rw (owner, other) (omega (arith, one n))
      ]
  Outcome-OneEach ci i version s t h one (touched ok e) n =
      rw e (omega (arith, one n, scoreflag-carried fl env ci i none s n))
  Outcome-OneEach ci i version s t h one (returned ok e) n = rw e (
      omega (
        arith,
        one n,
        carried-modify_le n s.flags i (λ g. bump_version (Flag.return_home 0 g))
            (return_home-Releases fl env 0),
      ))
  Outcome-OneEach ci i version s t h one (brought j ok full e) n =
      rw e (omega (arith, one n, scoreflag-carried fl env ci i (some j) s n))

  -- If no client carries two flags, none does after a `takeflag`, whoever asks for whichever flag.
  pub takeflag-OneEach :
      (ci : Client F) (i version : ℤ) (s : Ctf F)
      → OneEach s.flags
      → OneEach (takeflag fl env ci i version s).flags
  unfolding takeflag
  takeflag-OneEach ci (negsuc k) version s one = one
  takeflag-OneEach ci (pos i) version s one =
      elim (Bool-cases (
        s.notgotflags
        || not (ltb i (length s.flags))
        || not (is_alive ci.life)
        || not (nonempty ci.team))) [
          | inl shut ↦ rw shut one
          | inr ok ↦ rw ok (
              Outcome-OneEach ci i version s (takeflag_at fl env ci i version s) (ground arith) one
                (takeflag_at-Outcome fl env ci i version s))
        ]
