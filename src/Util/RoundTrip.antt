-- ===== src/Util/RoundTrip.antt =====
-- Reading back in network byte order what was stored in it.
use ruli.Common.{ℕ, ◌+◌, ◌*◌, ◌/◌, ◌%◌, ◌^◌, ◌<◌, ◌≡◌, refl, ap, ◌∙◌, List}
use ruli.Common.{
  ◌++◌, ◌∷◌, [], arith, bit_or, get_or, read-eq-done, read-append, done, read, length,
}
use ruli.Common.Bits.{bit_or-shifted, bit_and-0xff}
use ruli.Util.{unpack2, pack2}

pub unpack2_bytes : (v : ℕ) → v < 2 ^ 16 → unpack2 v ≡ v / 256 ∷ v % 256 ∷ []
unfolding unpack2
unpack2_bytes v h = ground (arith, bit_and-0xff v)

pub length-unpack2 : (v : ℕ) → length (unpack2 v) ≡ 2
unfolding unpack2
length-unpack2 v = refl

-- Two bytes in a row make up the number that they spell in base 256.
pub pack2_sum :
    (m : List ℕ) (i x y : ℕ)
    → read m i ≡ done x
    → read m (i + 1) ≡ done y
    → x < 256
    → y < 256
    → pack2 m i ≡ done (x * 256 + y)
unfolding pack2
pack2_sum m i x y hx hy lx ly =
    rw (hx, hy) (ap done (ground (arith, bit_or-shifted 8 x y (omega arith))))

-- `ruli_pack2` reads back the number of 16 bits that `ruli_unpack2` stored, wherever the two bytes lie
-- in a buffer.
pub pack2-unpack2 :
    (before after : List ℕ) (v : ℕ)
    → v < 2 ^ 16
    → pack2 (before ++ (unpack2 v ++ after)) (length before) ≡ done v
pack2-unpack2 before after v h = rw (unpack2_bytes v h) (
    pack2_sum _ (length before) (v / 256) (v % 256)
      (read-append before _ (length before) 0 (omega arith))
      (read-append before _ (length before + 1) 1 (omega arith)) (omega arith) (omega arith)
    ∙ ap done (omega arith))

-- Reading succeeds inside of the object.
pub pack2_total : (m : List ℕ) (i : ℕ) → i + 1 < length m → (v : ℕ) × (pack2 m i ≡ done v)
unfolding pack2
pack2_total m i h = (
  bit_or (get_or m i 0 * 2 ^ 8 % 2 ^ 16) (get_or m (i + 1) 0),
  rw (read-eq-done m i (omega arith), read-eq-done m (i + 1) h),
)
