-- ===== src/Wire/Tests.antt =====
-- The theorems of the encodings at concrete values.
use spaghettimod.Prelude.{
  ◌≤◌, ℕ, ◌+◌, ◌-◌, ◌^◌, ◌<◌, ◌≡◌, ◌⊎◌, inl, refl, arith, false, true, List, [], ◌∷◌, ◌++◌, length,
  take,
}
use spaghettimod.Wire.Buffer.{DataBuf, maxlen, put}
use spaghettimod.Wire.Buffer.Laws.{written, skip}
use spaghettimod.Wire.Ints.{putint, getint, getuint, int_bytes, append_byte}
use spaghettimod.Wire.Ints.RoundTrip.{getint-putint}
use spaghettimod.Wire.Ints.Unsigned.{uint_bytes, getuint-putuint}
use spaghettimod.Wire.Ints.Writing.{Fits, putint_bounds}
use spaghettimod.Wire.Text.{sendstring, getstring}
use spaghettimod.Wire.Text.RoundTrip.{IsText, getstring-sendstring, getstring_cut}

-- -1000 takes three bytes; one more follows.
abbrev minus_1000 : ℕ
minus_1000 = 2 ^ 32 - 1000

abbrev sent_int : DataBuf
sent_int = record {
  buf = int_bytes minus_1000 ++ (7 ∷ []);
  len = 0;
  overread = false;
  overwrote = false;
}

getint-putint_example :
    getint sent_int ≡ (minus_1000, skip (length (int_bytes minus_1000)) sent_int)
getint-putint_example = getint-putint sent_int minus_1000 (7 ∷ []) (omega arith) refl

abbrev sent_uint : DataBuf
sent_uint = record {
  buf = uint_bytes 300 ++ (7 ∷ []);
  len = 0;
  overread = false;
  overwrote = false;
}

getuint-putuint_example : getuint sent_uint ≡ (300, skip (length (uint_bytes 300)) sent_uint)
getuint-putuint_example = getuint-putuint sent_uint 300 (7 ∷ []) (inl (omega arith)) refl

-- Two bytes of room for three bytes.
abbrev narrow : DataBuf
narrow = record { buf = 0 ∷ 0 ∷ []; len = 0; overread = false; overwrote = false }

putint_bounds_example :
    Fits narrow (putint put narrow 1000)
    × (((maxlen narrow < narrow.len + length (int_bytes 1000))
          × ((putint put narrow 1000).overwrote ≡ true))
        ⊎ ((narrow.len + length (int_bytes 1000) ≤ maxlen narrow)
            × ((putint put narrow 1000).overwrote ≡ narrow.overwrote)
            × (written (putint put narrow 1000) ≡ written narrow ++ int_bytes 1000)))
putint_bounds_example = putint_bounds narrow 1000 (omega arith)

abbrev text : List ℕ
text = 104 ∷ 233 ∷ 33 ∷ []

text-IsText : IsText text
text-IsText = (omega arith, omega arith, (omega arith, omega arith, (omega arith, omega arith, tt)))

abbrev sent_text : DataBuf
sent_text = record {
  buf = sendstring append_byte [] text ++ (7 ∷ []);
  len = 0;
  overread = false;
  overwrote = false;
}

getstring-sendstring_example :
    getstring 260 sent_text ≡ (text, skip (length (sendstring append_byte [] text)) sent_text)
getstring-sendstring_example =
    getstring-sendstring 260 text sent_text (7 ∷ []) text-IsText (omega arith) refl

getstring_cut_example : (getstring 3 sent_text).0 ≡ take 2 text
getstring_cut_example = getstring_cut 3 text sent_text (7 ∷ []) text-IsText (omega arith) refl
