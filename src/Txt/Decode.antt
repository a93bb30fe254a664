-- ===== src/Txt/Decode.antt =====
-- `ruli_dname_decode`: a name in wire format to text.
--
-- The object at `src_dname` has exactly `src_dname_len` bytes, and `src` is the list of those that
-- are left. `some (b, n)` is RULI_TXT_OK with the bytes `b` in the buffer and `*dst_name_len = n`;
-- `none` is RULI_TXT_BAD.
pub mod Wire
mod Tests
use ruli.Common.{ℕ, zero, suc, ◌+◌, Option, none, some, List, [], ◌∷◌, ◌++◌, length}
use ruli.Common.{
  drop, leb, ◌==◌, if◌then◌else◌, bit_and, Run, done, bad_read, no_fuel, read_range, write, ◌>>=◌,
}
use ruli.Txt.Names.{dot}

-- `int len = *src` reads a `char`, which is signed: a byte from 128 on is a negative length, and
-- `memcpy` takes that for a huge one.
pub decode_loop : ℕ → ℕ → List ℕ → List ℕ → ℕ → Run (Option (List ℕ × ℕ))
decode_loop size zero src out n = no_fuel
decode_loop size (suc f) [] out n = done none
decode_loop size (suc f) (len ∷ src) out n =
    if len == 0
    then (if leb size (length out)
        then done none
        else do out' ← write size out (0 ∷ []); done (some (out', n)))
    else if bit_and len 0xC0 == 0xC0
    then done none
    else if leb 128 len
    then bad_read
    else if leb size (length out + (len + 1))
    then done none
    else do
      label ← read_range src 0 len
      out' ← write size out (label ++ (dot ∷ []))
      decode_loop size f (drop len src) out' (n + (len + 1))

pub dname_decode : ℕ → List ℕ → Run (Option (List ℕ × ℕ))
dname_decode size src = decode_loop size (length src + 1) src [] 0
