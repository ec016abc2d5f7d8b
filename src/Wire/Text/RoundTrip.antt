-- ===== src/Wire/Text/RoundTrip.antt =====
-- A text that was sent is the text that is read, cut to the array that it is read into.
use mathlib.Core.List.{append_assoc, append-nil, foldl}
use spaghettimod.Prelude.{
  ℕ, zero, suc, ◌-◌, ◌%◌, ◌≤◌, ◌<◌, ◌≡◌, sym, ap, ◌∙◌, false, List, [], ◌∷◌, ◌++◌, arith, length,
  length-append, take, take-take, ◌==◌,
}
use spaghettimod.Wire.Buffer.{DataBuf, remaining}
use spaghettimod.Wire.Buffer.Laws.{unread, skip, unread-skip, skip_add}
use spaghettimod.Wire.Ints.{sign_extend8, putint, int_bytes, append_byte}
use spaghettimod.Wire.Ints.RoundTrip.{getint-putint}
use spaghettimod.Wire.Ints.Writing.{putint-foldl, length-int_bytes}
use spaghettimod.Wire.Text.{sendstring, getstring_loop, getstring}
use spaghettimod.Prelude.{length-drop}

-- The bytes that a text is sent as.
pub text_bytes : List ℕ → List ℕ
text_bytes [] = int_bytes 0
text_bytes (c ∷ t) = int_bytes (sign_extend8 c) ++ text_bytes t

foldl-append_byte : (xs v : List ℕ) → foldl append_byte v xs ≡ v ++ xs
foldl-append_byte [] v = sym (append-nil v)
foldl-append_byte (x ∷ xs) v = foldl-append_byte xs (v ++ (x ∷ [])) ∙ append_assoc v (x ∷ []) xs

-- `sendstring` on a `vector<uchar>` appends them.
pub sendstring-bytes : (t v : List ℕ) → sendstring append_byte v t ≡ v ++ text_bytes t
unfolding sendstring text_bytes
sendstring-bytes [] v = putint-foldl append_byte v 0 ∙ foldl-append_byte (int_bytes 0) v
sendstring-bytes (c ∷ t) v =
    let bytes = int_bytes (sign_extend8 c) in
    let sent : putint append_byte v (sign_extend8 c) ≡ v ++ bytes =
      putint-foldl append_byte v (sign_extend8 c) ∙ foldl-append_byte bytes v in
    rw sent (sendstring-bytes t (v ++ bytes) ∙ append_assoc v bytes (text_bytes t))

-- Bytes of a C text: never 0.
abbrev pub IsText : List ℕ → Type 0
IsText [] = Unit {0}
IsText (c ∷ t) = (0 < c) × (c < 256) × IsText t

-- There is always a byte of an encoding to read.
int_bytes-remaining :
    (p : DataBuf) (n : ℕ) (rest : List ℕ)
    → unread p ≡ int_bytes n ++ rest
    → (remaining p == 0) ≡ false
unfolding remaining
int_bytes-remaining p n rest e = ground (
  arith,
  length-drop p.len p.buf,
  ap length e,
  length-append (int_bytes n) rest,
  length-int_bytes n,
)

module _ (len : ℕ) where
  -- One round of the loop reads a byte of the text.
  step_char :
      (room : ℕ) (got : List ℕ) (p : DataBuf) (c : ℕ) (rest : List ℕ)
      → 0 < c
      → c < 256
      → unread p ≡ int_bytes (sign_extend8 c) ++ rest
      → getstring_loop len (suc room) got p
        ≡ getstring_loop len room (got ++ (c ∷ [])) (skip (length (int_bytes (sign_extend8 c))) p)
  unfolding getstring_loop
  step_char room got p c rest h k e =
      let char : sign_extend8 c % 256 ≡ c = ground arith in
      let char_ne : (c == 0) ≡ false = ground arith in
      rw (
        int_bytes-remaining p (sign_extend8 c) rest e,
        getint-putint p (sign_extend8 c) rest (ground arith) e,
        char,
        char_ne,
      )

  -- The last round reads the NUL.
  step_nul :
      (room : ℕ) (got : List ℕ) (p : DataBuf) (rest : List ℕ)
      → unread p ≡ int_bytes 0 ++ rest
      → getstring_loop len (suc room) got p ≡ (got, skip (length (int_bytes 0)) p)
  unfolding getstring_loop
  step_nul room got p rest e =
      rw (int_bytes-remaining p 0 rest e, getint-putint p 0 rest (omega arith) e)

  loop_whole :
      (t : List ℕ) (room : ℕ) (got : List ℕ) (p : DataBuf) (rest : List ℕ)
      → IsText t
      → length t < room
      → unread p ≡ text_bytes t ++ rest
      → getstring_loop len room got p ≡ (got ++ t, skip (length (text_bytes t)) p)
  unfolding text_bytes
  loop_whole t zero got p rest h k e = absurd (omega arith)
  loop_whole [] (suc room) got p rest h k e = rw append-nil (step_nul room got p rest e)
  loop_whole (c ∷ t) (suc room) got p rest h k e =
      let bytes = int_bytes (sign_extend8 c) in
      let e1 : unread p ≡ bytes ++ (text_bytes t ++ rest) =
        e ∙ append_assoc bytes (text_bytes t) rest in
      let e2 = unread-skip bytes p (text_bytes t ++ rest) e1 in
      let ih =
        loop_whole t room (got ++ (c ∷ [])) (skip (length bytes) p) rest h.2 (omega arith) e2 in
      rw
        (
          length-append bytes (text_bytes t),
          skip_add (length bytes) (length (text_bytes t)) p,
          ← append_assoc got (c ∷ []) t,
        )
        (step_char room got p c (text_bytes t ++ rest) h.0 h.1 e1 ∙ ih)

  loop_cut :
      (t : List ℕ) (room : ℕ) (got : List ℕ) (p : DataBuf) (rest : List ℕ)
      → IsText t
      → room ≤ length t
      → unread p ≡ text_bytes t ++ rest
      → (getstring_loop len room got p).0 ≡ take (len - 1) (got ++ take room t)
  unfolding text_bytes
  loop_cut t zero got p rest h k e = unfold getstring_loop in rw append-nil
  loop_cut [] (suc room) got p rest h k e = absurd (omega arith)
  loop_cut (c ∷ t) (suc room) got p rest h k e =
      let bytes = int_bytes (sign_extend8 c) in
      let e1 : unread p ≡ bytes ++ (text_bytes t ++ rest) =
        e ∙ append_assoc bytes (text_bytes t) rest in
      let e2 = unread-skip bytes p (text_bytes t ++ rest) e1 in
      let ih =
        loop_cut t room (got ++ (c ∷ [])) (skip (length bytes) p) rest h.2 (omega arith) e2 in
      rw (step_char room got p c (text_bytes t ++ rest) h.0 h.1 e1, ih)
        (ap (take (len - 1)) (append_assoc got (c ∷ []) (take room t)))

-- A text that fits the array is read back whole, with exactly the bytes that `sendstring` sent.
pub getstring-sendstring :
    (len : ℕ) (t : List ℕ) (p : DataBuf) (rest : List ℕ)
    → IsText t
    → length t < len
    → unread p ≡ sendstring append_byte [] t ++ rest
    → getstring len p ≡ (t, skip (length (sendstring append_byte [] t)) p)
unfolding getstring
getstring-sendstring len t p rest h k e =
    rw (sendstring-bytes t [])
      (loop_whole len t len [] p rest h k (rw (sendstring-bytes t []) at e))

-- A longer text is cut to the array's length less one, for the NUL.
pub getstring_cut :
    (len : ℕ) (t : List ℕ) (p : DataBuf) (rest : List ℕ)
    → IsText t
    → len ≤ length t
    → unread p ≡ sendstring append_byte [] t ++ rest
    → (getstring len p).0 ≡ take (len - 1) t
unfolding getstring
getstring_cut len t p rest h k e =
    loop_cut len t len [] p rest h k (rw (sendstring-bytes t []) at e)
    ∙ take-take (len - 1) len t (omega arith)
