-- ===== src/Wire/Buffer.antt =====
-- `databuf<uchar>` of shared/tools.h: a window of bytes with a cursor and two error flags.
-- `buf` holds the `maxlen` bytes from the pointer on, so `maxlen` is its length.
pub mod Laws
use spaghettimod.Prelude.{
  ℕ, ◌+◌, ◌-◌, Bool, true, false, List, [], ◌++◌, Option, none, some, arith, ltb, leb,
  if◌then◌else◌, length, get_or, set, take, drop,
}
use Prim.Native.Nat.{min}
use spaghettimod.Prelude.Int.{ℤ, pos, negsuc}

pub record DataBuf : Type 0 where
  pub buf : List ℕ
  pub len : ℕ
  pub overread : Bool
  pub overwrote : Bool

abbrev pub maxlen : DataBuf → ℕ
maxlen p = length p.buf

-- `databuf(buf, maxlen)`
pub open_buf : List ℕ → DataBuf
open_buf bytes = record { buf = bytes; len = 0; overread = false; overwrote = false }

pub reset : DataBuf → DataBuf
reset p = record p { len = 0; overread = false; overwrote = false }

-- A read past the end gives 0 and sets the flag.
pub get : DataBuf → ℕ × DataBuf
get p =
    if ltb p.len (maxlen p)
    then (get_or p.buf p.len 0, record p { len = p.len + 1 })
    else (0, record p { overread = true })

-- A write past the end is dropped and sets the flag.
pub put : DataBuf → ℕ → DataBuf
put p val =
    if ltb p.len (maxlen p)
    then record p { buf = set p.buf p.len val; len = p.len + 1 }
    else record p { overwrote = true }

unfoldable pub remaining : DataBuf → ℕ
remaining p = maxlen p - p.len

-- `subbuf`: the next `sz` bytes as a buffer of their own, and the buffer behind them.
-- (The two share storage in the program; the callers only read.)
clamp_size : ℤ → ℕ → ℕ
clamp_size (pos n) room = min n room
clamp_size (negsuc n) room = 0

pub subbuf : DataBuf → ℤ → DataBuf × DataBuf
unfolding clamp_size
subbuf p sz =
    let n = clamp_size sz (maxlen p - p.len) in
    (open_buf (take n (drop p.len p.buf)), record p { len = p.len + n })

-- `offset`: the first `n` bytes are no longer part of the window.
pub offset : DataBuf → ℕ → DataBuf
offset p n = let k = min n (maxlen p) in record p { buf = drop k p.buf; len = p.len - k }

pub check : DataBuf → ℕ → Bool
unfolding remaining
check p n = leb n (remaining p)

pub forceoverread : DataBuf → DataBuf
forceoverread p = record p { len = maxlen p; overread = true }
