-- ===== src/Txt/Expand.antt =====
-- `ruli_dname_expand`: a compressed name of a message, uncompressed.
--
-- A message is an object `m`, and `msg_pastend` the index at which the code takes it to end. The object may
-- be larger. A pointer into the message is an index.
pub mod Inversion
pub mod Names
pub mod Faults
mod Tests
use ruli.Common.{ℕ, zero, suc, ◌+◌, ◌-◌, Option, none, some, List, [], ◌∷◌, ◌++◌, length}
use ruli.Common.{
  leb, ◌==◌, if◌then◌else◌, bit_and, Run, done, no_fuel, check, read, read_range, write, ◌>>=◌,
  ◌>>◌,
}
use ruli.Limits.{dname_encoded, compression_depth}
use ruli.Util.{pack2}
use ruli.Txt.Names.{dot}

-- `v & ~0xC000`, for a `v` of 16 bits in an `int` of 32 bits.
abbrev pub pointer_offset : ℕ → ℕ
pointer_offset v = bit_and v 0xFFFF3FFF

module _ (m : List ℕ) (msg_pastend size : ℕ) where
  -- The loop of `dname_expand` over the labels from `label` on, with `out` in the buffer of
  -- `size` bytes; `*expanded_len` is the number of bytes in `out`. `jump` is the rest of the code's
  -- branch for a compression pointer.
  unfoldable pub expand_loop :
      (ℕ → List ℕ → Run (Option (List ℕ))) → ℕ → ℕ → List ℕ → Run (Option (List ℕ))
  expand_loop jump zero label out = no_fuel
  expand_loop jump (suc f) label out = if leb msg_pastend label then done none else do
    len ← read m label
    if len == 0
        then (if leb size (length out)
            then done none
            else do out' ← write size out (0 ∷ []); done (some out'))
        else if bit_and len 0xC0 == 0xC0
        then jump label out
        else if leb size (length out + (len + 1))
        then done none
        else do
          bytes ← read_range m label (len + 1)
          out' ← write size out bytes
          expand_loop jump f (label + (len + 1)) out'

  -- `dname_expand`, by recursion on `remaining_depth`.
  unfoldable pub expand : ℕ → ℕ → List ℕ → Run (Option (List ℕ))
  expand zero label out = do
    check (leb (length out) size)
    if leb msg_pastend label
        then done none
        else expand_loop (λ label out. done none) (suc (msg_pastend - label)) label out
  expand (suc depth) label out = do
    check (leb (length out) size)
    if leb msg_pastend label
        then done none
        else expand_loop (λ label out. pack2 m label >>= λ v. expand depth (pointer_offset v) out)
            (suc (msg_pastend - label)) label out

-- `ruli_dname_expand`, which every caller gives a buffer of RULI_LIMIT_DNAME_ENCODED bytes.
unfoldable pub dname_expand : List ℕ → ℕ → ℕ → Run (Option (List ℕ))
dname_expand m msg_pastend label = expand m msg_pastend dname_encoded compression_depth label []
