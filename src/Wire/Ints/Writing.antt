-- ===== src/Wire/Ints/Writing.antt =====
-- Writing into a buffer: where the bytes go, and what happens when there is no room.
use mathlib.Core.List.{foldl, append_assoc, append-nil}
use spaghettimod.Prelude.{
  ℕ, ◌+◌, ◌≤◌, ◌<◌, ◌≡◌, refl, sym, ◌⊎◌, inl, inr, ◌&&◌, true, List, [], ◌∷◌, ◌++◌, arith, length,
  Bool-cases, dec_lt,
}
use spaghettimod.Prelude.Int.{pos, negsuc, ltb_ℤ, leb_ℤ}
use spaghettimod.Wire.Buffer.{DataBuf, put, maxlen}
use spaghettimod.Wire.Buffer.Laws.{written, put-written, put_full}
use spaghettimod.Wire.Ints.{signed32, putint, int_bytes}

-- `putint` puts the bytes of the encoding in order, into whatever kind of buffer.
pub putint-foldl {ℓ} :
    {P : Type ℓ} (put : P → ℕ → P) (p : P) (n : ℕ) → putint put p n ≡ foldl put p (int_bytes n)
unfolding putint
putint-foldl put p n =
    elim (Bool-cases (ltb_ℤ (signed32 n) (pos 128) && ltb_ℤ (negsuc 126) (signed32 n))) [
      | inl e ↦ rw e
      | inr e ↦
          elim (Bool-cases
            (ltb_ℤ (signed32 n) (pos 0x8000) && leb_ℤ (negsuc 0x7fff) (signed32 n))) [
              | inl e' ↦ rw (e, e')
              | inr e' ↦ rw (e, e')
            ]
    ]

pub length-int_bytes : (n : ℕ) → (1 ≤ length (int_bytes n)) × (length (int_bytes n) ≤ 5)
unfolding putint
length-int_bytes n = ground arith

-- `len` stays within `maxlen`, which stays as it was.
pub record Fits (p q : DataBuf) : Type 0 where
  pub same_maxlen : maxlen q ≡ maxlen p
  pub in_bounds : q.len ≤ maxlen q

module _ (p : DataBuf) (v : ℕ) where
  put-Fits : p.len ≤ maxlen p → Fits p (put p v)
  put-Fits h = elim (dec_lt p.len (maxlen p)) [
    | yes lt ↦ ground (arith, put-written p v lt)
    | no ge ↦ ground (arith, put_full p v)
  ]

-- Any number of writes keeps the cursor within the buffer.
pub foldl-put-Fits : (xs : List ℕ) (p : DataBuf) → p.len ≤ maxlen p → Fits p (foldl put p xs)
foldl-put-Fits [] p h = record { same_maxlen = refl; in_bounds = h }
foldl-put-Fits (x ∷ xs) p h = ground (arith, put-Fits p x h, foldl-put-Fits xs (put p x))

-- Where all bytes have room they are appended to what was written, and no flag changes.
pub foldl-put-written :
    (xs : List ℕ) (p : DataBuf)
    → p.len + length xs ≤ maxlen p
    → (written (foldl put p xs) ≡ written p ++ xs)
      × ((foldl put p xs).len ≡ p.len + length xs)
      × ((foldl put p xs).overwrote ≡ p.overwrote)
foldl-put-written [] p h = (sym (append-nil (written p)), omega arith, refl)
foldl-put-written (x ∷ xs) p h =
    ground
      (arith, put-written p x, foldl-put-written xs (put p x), append_assoc (written p) (x ∷ []) xs)

overwrote_stays :
    (xs : List ℕ) (p : DataBuf) → p.overwrote ≡ true → (foldl put p xs).overwrote ≡ true
overwrote_stays [] p h = h
overwrote_stays (x ∷ xs) p h = elim (dec_lt p.len (maxlen p)) [
  | yes lt ↦ overwrote_stays xs (put p x) (ground (arith, put-written p x lt))
  | no ge ↦ overwrote_stays xs (put p x) (ground (arith, put_full p x))
]

-- A write that does not fit sets the flag.
pub foldl-put_overwrote :
    (xs : List ℕ) (p : DataBuf)
    → p.len ≤ maxlen p
    → maxlen p < p.len + length xs
    → (foldl put p xs).overwrote ≡ true
foldl-put_overwrote [] p b h = absurd (omega arith)
foldl-put_overwrote (x ∷ xs) p b h = elim (dec_lt p.len (maxlen p)) [
  | yes lt ↦
      foldl-put_overwrote xs (put p x) (ground (arith, put-written p x lt))
        (ground (arith, put-written p x lt))
  | no ge ↦ overwrote_stays xs (put p x) (ground (arith, put_full p x))
]

-- When the cursor is within the buffer, `putint` keeps it there. Either the encoding has no room,
-- and the overwrote flag is set, or it follows what was written, and the flag is as it was.
pub putint_bounds :
    (p : DataBuf) (n : ℕ)
    → p.len ≤ maxlen p
    → Fits p (putint put p n)
      × (((maxlen p < p.len + length (int_bytes n)) × ((putint put p n).overwrote ≡ true))
          ⊎ ((p.len + length (int_bytes n) ≤ maxlen p)
              × ((putint put p n).overwrote ≡ p.overwrote)
              × (written (putint put p n) ≡ written p ++ int_bytes n)))
putint_bounds p n h = rw (putint-foldl put p n) (
  foldl-put-Fits (int_bytes n) p h,
  elim (dec_lt (maxlen p) (p.len + length (int_bytes n))) [
    | yes over ↦ inl (over, foldl-put_overwrote (int_bytes n) p h over)
    | no room ↦
        let placed = foldl-put-written (int_bytes n) p (omega arith) in
        inr (omega arith, placed.2, placed.0)
  ],
)
