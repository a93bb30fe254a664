-- ===== src/Util/Tests.antt =====
-- Numbers in network byte order.
use ruli.Common.{ℕ, List, [], ◌∷◌, ◌++◌, refl, arith, ◌≡◌, done, length}
use ruli.Util.{unpack2, pack2, pack4}
use ruli.Util.RoundTrip.{pack2-unpack2}

four_bytes : pack4 (1 ∷ 2 ∷ 3 ∷ 4 ∷ []) 0 ≡ done 0x01020304
unfolding pack4
four_bytes = refl

abbrev front : List ℕ
front = 9 ∷ []

pack2-unpack2_example : pack2 (front ++ (unpack2 0x1234 ++ (8 ∷ []))) (length front) ≡ done 0x1234
pack2-unpack2_example = pack2-unpack2 front (8 ∷ []) 0x1234 (omega arith)
