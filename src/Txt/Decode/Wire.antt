-- ===== src/Txt/Decode/Wire.antt =====
-- What `ruli_dname_decode` makes of a name in wire format.
use ruli.Common.{
  ℕ, zero, suc, ◌+◌, ◌≤◌, ◌<◌, ◌≡◌, refl, ap, ◌∙◌, arith, append_assoc, append-nil, bit_and, List,
}
use ruli.Common.{
  [], ◌∷◌, ◌++◌, length, All, some, done, length-append, take_exact, drop_exact, true, false, ◌==◌,
  not,
}
use mathlib.Core.Path.{ap₂}
use ruli.Common.Bits.{all_below, all_below_sound}
use ruli.Txt.Names.{dot, text, wire, IsLabel}
use ruli.Txt.Decode.{decode_loop, dname_decode}

-- The length of a label does not look like a compression pointer.
no_pointer_table : all_below 64 (λ x. not (bit_and x 0xC0 == 0xC0)) ≡ true
unfolding all_below
no_pointer_table = refl

pub no_pointer : (x : ℕ) → x < 64 → (bit_and x 0xC0 == 0xC0) ≡ false
no_pointer x h = ground (arith, all_below_sound 64 _ x h no_pointer_table)

decode_label :
    (size f : ℕ) (l rest out : List ℕ) (n : ℕ)
    → IsLabel l
    → length out + suc (length l) < size
    → decode_loop size (suc f) (length l ∷ (l ++ rest)) out n
      ≡ decode_loop size f rest (out ++ (l ++ (dot ∷ []))) (n + (length l + 1))
unfolding decode_loop
decode_label size f l rest out n lab room = ground (
  arith,
  no_pointer (length l),
  take_exact l rest (length l) refl,
  drop_exact l rest (length l) refl,
  length-append l rest,
  length-append l (dot ∷ []),
)

text_in_place :
    (out l : List ℕ) (ls : List (List ℕ))
    → (out ++ (l ++ (dot ∷ []))) ++ text ls ≡ out ++ (l ++ (dot ∷ text ls))
text_in_place out l ls = simp append_assoc

pub decode_loop-wire :
    (size f : ℕ) (ls : List (List ℕ)) (out : List ℕ) (n : ℕ)
    → All IsLabel ls
    → length (wire ls) ≤ f
    → length out + length (text ls) < size
    → decode_loop size f (wire ls) out n
      ≡ done (some ((out ++ text ls) ++ (0 ∷ []), n + length (text ls)))
unfolding decode_loop
decode_loop-wire size zero [] out n p h k = absurd (omega arith)
decode_loop-wire size zero (l ∷ ls) out n p h k = absurd (omega arith)
decode_loop-wire size (suc f) [] out n p h k = ground (arith, append-nil out)
decode_loop-wire size (suc f) (l ∷ ls) out n p h k =
    decode_label size f l (wire ls) out n p.0 (omega (arith, length-append l (dot ∷ text ls)))
    ∙ decode_loop-wire size f ls (out ++ (l ++ (dot ∷ []))) (n + (length l + 1)) p.1
        (omega (arith, length-append l (wire ls)))
        (omega (
          arith,
          length-append l (dot ∷ text ls),
          length-append out (l ++ (dot ∷ [])),
          length-append l (dot ∷ []),
        ))
    ∙ ap₂ (λ o m. done (some (o ++ (0 ∷ []), m))) (text_in_place out l ls)
        (omega (arith, length-append l (dot ∷ text ls)))

-- A name in wire format, of labels of 1 to 63 bytes, whose text and a terminating NUL fit the buffer
-- is decoded to that text, with a dot behind every label, and `*dst_name_len` is the number of its
-- bytes.
pub dname_decode-wire :
    (size : ℕ) (ls : List (List ℕ))
    → All IsLabel ls
    → length (text ls) < size
    → dname_decode size (wire ls) ≡ done (some (text ls ++ (0 ∷ []), length (text ls)))
unfolding dname_decode
dname_decode-wire size ls p h =
    decode_loop-wire size (length (wire ls) + 1) ls [] 0 p (omega arith) (omega arith)
    ∙ ap (λ m. done (some (text ls ++ (0 ∷ []), m))) (omega arith)
