-- ===== src/Game/ReadVec.antt =====
-- A position in a message: `loopk(3) o[k] = max(getint(p)/DMF, 0.0f);`, as the modes read it.
use spaghettimod.Prelude.{if◌then◌else◌}
use spaghettimod.Wire.Buffer.{DataBuf}
use spaghettimod.Wire.Ints.{getint, signed32}
use spaghettimod.Game.Geometry.{Floats, Vec}

module _ {F : Type 0} (fl : Floats F) where
  unfoldable pub read_coord : DataBuf → F × DataBuf
  unfolding getint
  read_coord p =
      let (n, p1) = getint p in
      let x = fl.dequantize (signed32 n) in (if fl.le x (fl.of_int 0) then fl.of_int 0 else x, p1)

  unfoldable pub read_vec : DataBuf → Vec F × DataBuf
  unfolding read_coord
  read_vec p =
      let (x, p1) = read_coord p in
      let (y, p2) = read_coord p1 in
      let (z, p3) = read_coord p2 in (record { x = x; y = y; z = z }, p3)
