-- ===== src/Wire/Text.antt =====
-- `sendstring_` and `getstring` of shared/tools.cpp. A text is the list of its bytes before the NUL.
pub mod RoundTrip
use spaghettimod.Prelude.{
  ℕ, zero, suc, ◌-◌, ◌%◌, Bool, List, [], ◌∷◌, ◌++◌, ◌==◌, if◌then◌else◌, take,
}
use spaghettimod.Wire.Buffer.{DataBuf, remaining}
use spaghettimod.Wire.Ints.{sign_extend8, putint, getint}

-- A `char` is signed: `putint(p, *t++)` extends its sign.
unfoldable pub sendstring {ℓ} : {P : Type ℓ} → (P → ℕ → P) → P → List ℕ → P
unfolding putint
sendstring put p [] = putint put p 0
sendstring put p (c ∷ t) = sendstring put (putint put p (sign_extend8 c)) t

-- The loop, with `room` bytes between `t` and the end of the array, and `got` before `t`.
-- Without room the last byte stored is overwritten by the NUL.
unfoldable pub getstring_loop : ℕ → ℕ → List ℕ → DataBuf → List ℕ × DataBuf
getstring_loop len zero got p = (take (len - 1) got, p)
getstring_loop len (suc room) got p =
    let (n, p') = getint p in
    let c = n % 256 in
    let rest = getstring_loop len room (got ++ (c ∷ [])) p' in
    if remaining p == 0 then (got, p) else (if c == 0 then (got, p') else rest)

unfoldable pub getstring : ℕ → DataBuf → List ℕ × DataBuf
getstring len p = getstring_loop len len [] p
