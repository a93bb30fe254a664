-- ===== src/Txt/Decode/Tests.antt =====
-- Names decoded.
use ruli.Common.{ℕ, List, [], ◌∷◌, ◌++◌, some, none, arith, ◌≡◌, done, length, refl}
use ruli.Txt.Names.{text, wire}
use ruli.Txt.Decode.{dname_decode, decode_loop}
use ruli.Txt.Decode.Wire.{dname_decode-wire}

abbrev labels : List (List ℕ)
labels = (b'a' ∷ b'b' ∷ []) ∷ (b'c' ∷ []) ∷ []

-- A byte from 128 to 191 is a negative length.
negative_length : dname_decode 254 (130 ∷ b'a' ∷ b'b' ∷ 0 ∷ []) ≡ done none → ⊥
unfolding dname_decode decode_loop
negative_length h = cc

dname_decode-wire_example :
    dname_decode 6 (wire labels) ≡ done (some (text labels ++ (0 ∷ []), length (text labels)))
dname_decode-wire_example =
    dname_decode-wire 6 labels ((omega arith, omega arith), ((omega arith, omega arith), tt))
      (omega arith)

-- The name of the root has an empty text.
root_decoded : dname_decode 6 (0 ∷ []) ≡ done (some (0 ∷ [], 0))
unfolding dname_decode decode_loop
root_decoded = refl
