-- ===== src/Txt/RoundTrip.antt =====
-- Encoding a name and decoding it again.
use ruli.Common.{ℕ, ◌+◌, ◌≤◌, ◌≡◌, ap, List, [], ◌∷◌, ◌++◌, length, some, done, arith}
use ruli.Txt.Names.{with_dot}
use ruli.Txt.Encode.{drop_dot, dname_encode}
use ruli.Txt.Encode.Wire.{dname_encode_sound, length-with_dot_le}
use ruli.Txt.Decode.{dname_decode}
use ruli.Txt.Decode.Wire.{dname_decode-wire}

-- What `ruli_dname_encode` returns for a name is decoded by `ruli_dname_decode` into any buffer of at
-- least two bytes more than the name without its last dot: to the name with a dot at its end, or, for
-- the name of the root, which is a dot alone, to the empty text.
pub dname_decode-encode :
    (size size' : ℕ) (dname name : List ℕ) {w : List ℕ}
    → drop_dot dname ≡ done name
    → dname_encode size dname ≡ done (some w)
    → length name + 2 ≤ size'
    → dname_decode size' w ≡ done (some (with_dot name ++ (0 ∷ []), length (with_dot name)))
dname_decode-encode size size' dname name {w} d e h =
    let s = (dname_encode_sound size dname name d e).0 in
    rw (s.written, ← s.spelled)
      (dname_decode-wire size' s.labels s.sized
        (omega (arith, ap length s.spelled, length-with_dot_le name)))
