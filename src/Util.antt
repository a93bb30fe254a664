-- ===== src/Util.antt =====
-- src/ruli_util.c: numbers in network byte order.
pub mod RoundTrip
mod Tests
use ruli.Common.{ℕ, ◌+◌, ◌*◌, ◌/◌, ◌%◌, ◌^◌, bit_and, bit_or, List, [], ◌∷◌, Run, done, read, ◌>>=◌}

-- `ruli_unpack2`: the two bytes that it stores at `i`; each store cuts to a byte.
unfoldable pub unpack2 : ℕ → List ℕ
unpack2 val = val / 2 ^ 8 % 2 ^ 8 ∷ (bit_and val 0xFF % 2 ^ 8 ∷ [])

-- `ruli_pack2`, at index `i` of an object: `a = *i << 8` is cut to 16 bits.
unfoldable pub pack2 : List ℕ → ℕ → Run ℕ
pack2 m i = do x ← read m i; y ← read m (i + 1); done (bit_or (x * 2 ^ 8 % 2 ^ 16) y)

-- `ruli_pack4`, in 32 bits.
unfoldable pub pack4 : List ℕ → ℕ → Run ℕ
pack4 m i = do
  x ← read m i
  y ← read m (i + 1)
  z ← read m (i + 2)
  w ← read m (i + 3)
  done (bit_or (bit_or (bit_or (x * 2 ^ 24 % 2 ^ 32) (y * 2 ^ 16 % 2 ^ 32)) (z * 2 ^ 8 % 2 ^ 32)) w)
