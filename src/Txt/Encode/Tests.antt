-- ===== src/Txt/Encode/Tests.antt =====
-- Names encoded, and decoded again.
use ruli.Common.{
  ℕ, List, [], ◌∷◌, ◌++◌, some, none, refl, arith, ◌≡◌, ◌+◌, ◌≤◌, done, Option, length, All,
}
use ruli.Txt.Names.{wire, with_dot, IsLabel, NoDot}
use ruli.Txt.Encode.{
  dname_encode, dname_encode_size, build_label, find_label, drop_dot, encode_fitting, encode_labels,
}
use ruli.Txt.Encode.Wire.{IsWireOf, dname_encode_sound, dname_encode_complete, dname_encode_total}
use ruli.Txt.Decode.{dname_decode}
use ruli.Txt.RoundTrip.{dname_decode-encode}

abbrev name : List ℕ
name = b'a' ∷ b'b' ∷ b'.' ∷ b'c' ∷ []

abbrev encoded : List ℕ
encoded = 2 ∷ b'a' ∷ b'b' ∷ 1 ∷ b'c' ∷ 0 ∷ []

abbrev labels : List (List ℕ)
labels = (b'a' ∷ b'b' ∷ []) ∷ (b'c' ∷ []) ∷ []

two_labels : dname_encode 255 name ≡ done (some encoded)
unfolding dname_encode build_label find_label drop_dot encode_fitting encode_labels
two_labels = refl

size_of_name : dname_encode_size name ≡ done 6
unfolding dname_encode_size
size_of_name = refl

-- No label may be empty: a second dot at the end is one too many.
second_dot : dname_encode 255 (b'a' ∷ b'.' ∷ b'.' ∷ b'b' ∷ []) ≡ done none
unfolding dname_encode build_label find_label drop_dot encode_fitting encode_labels
second_dot = refl

no_dot : drop_dot name ≡ done name
unfolding drop_dot
no_dot = refl

dname_encode_sound_example :
    IsWireOf 255 [] (with_dot name) encoded × (length encoded ≤ length name + 2)
dname_encode_sound_example = dname_encode_sound 255 name name no_dot two_labels

labels-IsLabel : All IsLabel labels
labels-IsLabel = ((omega arith, omega arith), ((omega arith, omega arith), tt))

labels-NoDot : All NoDot labels
labels-NoDot = ((ground arith, (ground arith, tt)), ((ground arith, tt), tt))

dname_encode_complete_example :
    (dname_encode 255 name ≡ done (some (wire labels)))
    × (length (wire labels) ≡ length (with_dot name) + 1)
dname_encode_complete_example =
    dname_encode_complete 255 name name labels no_dot refl labels-IsLabel labels-NoDot (omega arith)
      (omega arith)

dname_encode_total_example : (r : Option (List ℕ)) × (dname_encode 3 name ≡ done r)
dname_encode_total_example = dname_encode_total 3 name (omega arith)

dname_decode-encode_example :
    dname_decode 6 encoded ≡ done (some (with_dot name ++ (0 ∷ []), length (with_dot name)))
dname_decode-encode_example = dname_decode-encode 255 6 name name no_dot two_labels (omega arith)

-- The name of the root is one zero byte.
root_encoded : dname_encode 255 (b'.' ∷ []) ≡ done (some (0 ∷ []))
unfolding dname_encode build_label find_label drop_dot encode_fitting encode_labels
root_encoded = refl
