-- ===== src/Game/Geometry.antt =====
-- Positions, and the cylinder test of the game modes (`insidebase`). The machine's float arithmetic
-- is a parameter: a carrier with its operations.
use spaghettimod.Prelude.{ℕ, Bool, ◌&&◌}
use spaghettimod.Prelude.Int.{ℤ}

pub record Floats (F : Type 0) : Type 0 where
  pub sub : F → F → F
  pub add : F → F → F
  pub mul : F → F → F
  pub abs : F → F
  pub le : F → F → Bool
  pub of_int : ℕ → F
  -- `int(x*DMF)` and `i/DMF`: positions are sent as sixteenths.
  pub quantize : F → ℤ
  pub dequantize : ℤ → F

pub record Vec (F : Type 0) : Type 0 where
  pub x : F
  pub y : F
  pub z : F

-- The members `insidebase` of the modes, which differ in the two limits.
-- `radius*radius` is a product of ints.
unfoldable pub inside_cylinder : {F : Type 0} → Floats F → ℕ → ℕ → Vec F → Vec F → Bool
inside_cylinder fl radius_squared height b o =
    let dx = fl.sub b.x o.x in
    let dy = fl.sub b.y o.y in
    let dz = fl.sub b.z o.z in
    fl.le (fl.add (fl.mul dx dx) (fl.mul dy dy)) (fl.of_int radius_squared)
    && fl.le (fl.abs dz) (fl.of_int height)

-- `vec(0, 0, 0)`
abbrev pub origin : {F : Type 0} → Floats F → Vec F
origin fl = record { x = fl.of_int 0; y = fl.of_int 0; z = fl.of_int 0 }

-- `ivec o(vec(v).mul(DMF))`, and `vec(o).div(DMF)`.
abbrev pub quantized : {F : Type 0} → Floats F → Vec F → Vec ℤ
quantized fl v = record { x = fl.quantize v.x; y = fl.quantize v.y; z = fl.quantize v.z }

abbrev pub dequantized : {F : Type 0} → Floats F → Vec ℤ → Vec F
dequantized fl v = record { x = fl.dequantize v.x; y = fl.dequantize v.y; z = fl.dequantize v.z }
