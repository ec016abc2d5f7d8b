-- ===== src/Collect/Parse.antt =====
-- What `collectservmode` reads from and writes to messages: `parsebases` and `initclient`.
use mathlib.Core.List.{flat_map}
use spaghettimod.Prelude.{
  ℕ, zero, suc, Bool, false, ◌&&◌, List, [], ◌∷◌, ◌++◌, ltb, length, if◌then◌else◌,
}
use spaghettimod.Prelude.Int.{ℤ, pos, negsuc, pos_part}
use spaghettimod.Wire.Buffer.{DataBuf}
use spaghettimod.Wire.Ints.{getint, signed32}
use spaghettimod.Game.Geometry.{Floats, quantized}
use spaghettimod.Game.ReadVec.{read_vec}
use spaghettimod.Game.World.{Client, is_alive}
use spaghettimod.Collect.Token.{Token}
use spaghettimod.Collect.State.{Collect, addbase}

module _ {F : Type 0} (fl : Floats F) where
  -- `loopi(numbases)`: `left` rounds are left. It stops where the message ends.
  unfoldable pub read_bases : Bool → ℕ → ℕ → DataBuf → Collect F → DataBuf × Collect F
  unfolding addbase getint read_vec
  read_bases commit zero i p s = (p, s)
  read_bases commit (suc left) i p s =
      let (team, p1) = getint p in
      let (o, p2) = read_vec fl p1 in
      let placed = if commit && s.notgotbases then (addbase fl i o (signed32 team) s).1 else s in
      let rest = read_bases commit left (suc i) p2 placed in if p2.overread then (p2, s) else rest

  unfoldable pub parsebases : DataBuf → Bool → Collect F → DataBuf × Collect F
  unfolding read_bases getint
  parsebases p commit s =
      let (numbases, p1) = getint p in
      let (p2, read) = read_bases commit (pos_part (signed32 numbases)) 0 p1 s in
      (p2, if commit && read.notgotbases then record read { notgotbases = false } else read)

  abbrev pub token_ints : Token F → List ℤ
  token_ints t =
      let at = quantized fl t.o in pos t.id ∷ t.team ∷ pos t.yaw ∷ at.x ∷ at.y ∷ at.z ∷ []

  abbrev pub carrier_ints : Client F → List ℤ
  carrier_ints c = if is_alive c.life && ltb 0 c.tokens then c.clientnum ∷ pos c.tokens ∷ [] else []

  -- The numbers after N_INITTOKENS.
  unfoldable pub initclient : Collect F → List ℤ
  initclient s =
      s.score1 ∷ s.score2 ∷ pos (length s.tokens) ∷ flat_map token_ints s.tokens
      ++ (flat_map carrier_ints s.world.clients ++ (negsuc 0 ∷ []))
