-- ===== src/Capture/Parse.antt =====
-- What `captureservmode` reads from and writes to messages: `parsebases` and `initclient`.
use mathlib.Core.List.{flat_map}
use spaghettimod.Prelude.{
  ℕ, zero, suc, Bool, false, ◌&&◌, List, [], ◌∷◌, ◌++◌, length, if◌then◌else◌,
}
use spaghettimod.Prelude.Int.{ℤ, pos, negsuc, pos_part}
use spaghettimod.Wire.Buffer.{DataBuf}
use spaghettimod.Wire.Ints.{getint, signed32}
use spaghettimod.Game.Names.{Name}
use spaghettimod.Game.Geometry.{Floats}
use spaghettimod.Game.ReadVec.{read_vec}
use spaghettimod.Game.World.{Env}
use spaghettimod.Capture.Base.{BaseInfo}
use spaghettimod.Capture.State.{Capture, Score, addbase}
use spaghettimod.Capture.Play.{sendbases}
use spaghettimod.Capture.Clock.{base_type, enter_all}

module _ {F : Type 0} (fl : Floats F) (env : Env) where
  -- `loopi(numbases)`: `left` rounds are left. It stops where the message ends.
  unfoldable pub read_bases : Bool → ℕ → DataBuf → Capture F → DataBuf × Capture F
  unfolding addbase getint read_vec
  read_bases commit zero p s = (p, s)
  read_bases commit (suc left) p s =
      let (ammotype, p1) = getint p in
      let (o, p2) = read_vec fl p1 in
      let placed =
        if commit && s.notgotbases
        then addbase fl (base_type fl env (signed32 ammotype)) o s
        else s in
      let rest = read_bases commit left p2 placed in if p2.overread then (p2, s) else rest

  unfoldable pub parsebases : DataBuf → Bool → Capture F → DataBuf × Capture F
  unfolding read_bases getint sendbases enter_all
  parsebases p commit s =
      let (numbases, p1) = getint p in
      let (p2, read) = read_bases commit (pos_part (signed32 numbases)) p1 s in
      let open_now = record read { notgotbases = false } in
      (
        p2,
        if commit && read.notgotbases
            then enter_all fl env read.world.clients (sendbases fl env open_now)
            else read,
      )

-- What `initclient` writes, in order: numbers and texts.
pub data Item : Type 0 where
  number : ℤ → Item
  text : Name → Item

-- N_BASESCORE and N_BASES, by their numbers in the protocol, are parameters.
abbrev pub score_items : ℤ → Score → List Item
score_items n_basescore cs =
    number n_basescore ∷ number (negsuc 0) ∷ text cs.team ∷ number cs.total ∷ []

module _ {F : Type 0} (n_basescore n_bases : ℤ) where
  abbrev pub base_items : BaseInfo F → List Item
  base_items b =
      number (pos b.ammotype)
      ∷ text b.owner
      ∷ text b.enemy
      ∷ number b.converted
      ∷ number (pos b.ammo)
      ∷ []

  unfoldable pub initclient : Bool → Capture F → List Item
  initclient connecting s =
      let bases = number n_bases ∷ number (pos (length s.bases)) ∷ flat_map base_items s.bases in
      if connecting then flat_map (score_items n_basescore) s.scores ++ bases else bases
