-- ===== src/Txt/Encode/Wire.antt =====
-- What `ruli_dname_encode` returns: soundness, completeness and the absence of faults.
use ruli.Common.{ℕ, zero, suc, ◌+◌, ◌-◌, ◌≤◌, ◌<◌, ◌≡◌, refl, ap, ◌∙◌, sym, arith}
use ruli.Common.{
  append_assoc, List, [], ◌∷◌, ◌++◌, length, All, Option, none, some, done, >>=-eq-done,
  length-append,
}
use ruli.Common.{
  inl, inr, length-drop, length-take, get_elem?-eq-get_or, get_or, take, ◌==◌, Bool-cases, ltb,
  if◌then◌else◌, not_ltb→le,
}
use ruli.Limits.{dname_encoded}
use ruli.Txt.Names.{dot, with_dot, text, wire, IsLabel, NoDot, length-wire}
use ruli.Txt.Encode.{encode_fitting, drop_dot, dname_encode, build_label, find_label, encode_labels}
use ruli.Txt.Encode.Labels.{
  find_label-NoDot, after_label, with_dot_split, build_label-some, build_label_fits,
  build_label_total, nodot_split,
}

-- `w` is the wire format of a name with text `t`, stored behind `out` in `size` bytes.
pub record IsWireOf (size : ℕ) (out t w : List ℕ) : Type 0 where
  pub labels : List (List ℕ)
  pub written : w ≡ out ++ wire labels
  pub spelled : text labels ≡ t
  pub sized : All IsLabel labels
  pub dotless : All NoDot labels
  pub fits : length w ≤ size

-- A round of the loop that returns a name has stored a label and gone on behind it.
encode_labels-cons :
    (size f c : ℕ) (src out : List ℕ) {w : List ℕ}
    → encode_labels size (suc f) (c ∷ src) out ≡ done (some w)
    → (out' : List ℕ) × (build_label size out (find_label (c ∷ src)) ≡ done (some out'))
      × (encode_labels size f (after_label (c ∷ src)) out' ≡ done (some w))
unfolding encode_labels
encode_labels-cons size f c src out {w} h =
    let (r, b, k) = >>=-eq-done (build_label size out (find_label (c ∷ src))) _ h in split r b k
  where
    split :
        (r : Option (List ℕ))
        → build_label size out (find_label (c ∷ src)) ≡ done r
        → (elim r [
          | none ↦ done none
          | some out' ↦ encode_labels size f (after_label (c ∷ src)) out'
        ])
          ≡ done (some w)
        → (out' : List ℕ) × (build_label size out (find_label (c ∷ src)) ≡ done (some out'))
          × (encode_labels size f (after_label (c ∷ src)) out' ≡ done (some w))
    split none b k = cc
    split (some out') b k = (out', b, k)

pub encode_labels_sound :
    (size f : ℕ) (src out : List ℕ) {w : List ℕ}
    → encode_labels size f src out ≡ done (some w)
    → IsWireOf size out (with_dot src) w
unfolding encode_labels
encode_labels_sound size zero src out h = cc
encode_labels_sound size (suc f) [] out h = record {
  labels = [];
  written = ground arith;
  spelled = refl;
  sized = tt;
  dotless = tt;
  fits = ground (arith, length-append out (0 ∷ []));
}
encode_labels_sound size (suc f) (c ∷ src) out {w} h =
    let (out', b, k) = encode_labels-cons size f c src out h in
    let ih = encode_labels_sound size f (after_label (c ∷ src)) out' k in
    let l = find_label (c ∷ src) in
    let (lab, e, le) = build_label-some size out l b in
    record {
      labels = l ∷ ih.labels;
      written =
          ih.written
          ∙ ap (λ o. o ++ wire ih.labels) e
          ∙ append_assoc out (length l ∷ l) (wire ih.labels);
      spelled = ap (λ t. l ++ (dot ∷ t)) ih.spelled ∙ sym (with_dot_split c src);
      sized = (lab, ih.sized);
      dotless = (find_label-NoDot (c ∷ src), ih.dotless);
      fits = ih.fits;
    }

-- The rounds left suffice as long as they outnumber the bytes left.
after_label-shorter : (c : ℕ) (src : List ℕ) → length (after_label (c ∷ src)) ≤ length src
after_label-shorter c src =
    omega (arith, length-drop (suc (length (find_label (c ∷ src)))) (c ∷ src))

length-with_dot_split :
    (c : ℕ) (src : List ℕ)
    → length (with_dot (c ∷ src))
      ≡ length (find_label (c ∷ src)) + 1 + length (with_dot (after_label (c ∷ src)))
length-with_dot_split c src =
    ap length (with_dot_split c src)
    ∙ omega (arith, length-append (find_label (c ∷ src)) (dot ∷ with_dot (after_label (c ∷ src))))

pub encode_labels-total :
    (size f : ℕ) (src out : List ℕ)
    → length src < f
    → length out + length (with_dot src) < size
    → (r : Option (List ℕ)) × (encode_labels size f src out ≡ done r)
unfolding encode_labels
encode_labels-total size zero src out h k = absurd (omega arith)
encode_labels-total size (suc f) [] out h k = (some (out ++ (0 ∷ [])), ground arith)
encode_labels-total size (suc f) (c ∷ src) out h k =
    let l = find_label (c ∷ src) in
    let (r, t) =
      encode_labels-total size f (after_label (c ∷ src)) (out ++ (length l ∷ l))
        (omega (arith, after_label-shorter c src))
        (omega (arith, length-with_dot_split c src, length-append out (length l ∷ l))) in
    elim (build_label_total size out l (omega (arith, length-with_dot_split c src))) [
      | inl e ↦ (none, rw e)
      | inr e ↦ (r, rw e t)
    ]

pub encode_labels_complete :
    (size f : ℕ) (src out : List ℕ) (ls : List (List ℕ))
    → length src < f
    → length out + length (wire ls) ≤ size
    → text ls ≡ with_dot src
    → All IsLabel ls
    → All NoDot ls
    → encode_labels size f src out ≡ done (some (out ++ wire ls))
unfolding encode_labels
encode_labels_complete size zero src out ls h k e p q = absurd (omega arith)
encode_labels_complete size (suc f) [] out [] h k e p q = ground arith
encode_labels_complete size (suc f) [] out (l ∷ ls) h k e p q =
    absurd (omega (arith, ap length e, length-append l (dot ∷ text ls)))
encode_labels_complete size (suc f) (c ∷ src) out [] h k e p q =
    absurd (omega (arith, ap length e, length-with_dot_split c src))
encode_labels_complete size (suc f) (c ∷ src) out (l ∷ ls) h k e p q =
    let l' = find_label (c ∷ src) in
    let (same, rest) =
      nodot_split l l' (text ls) (with_dot (after_label (c ∷ src))) q.0 (find_label-NoDot (c ∷ src))
        (e ∙ with_dot_split c src) in
    let room : length out + suc (length l) ≤ size = omega (arith, length-append l (wire ls)) in
    let small : length (out ++ (length l ∷ l)) + length (wire ls) ≤ size =
      omega (arith, length-append l (wire ls), length-append out (length l ∷ l)) in
    rw (← same, build_label_fits size out l p.0 room)
      (encode_labels_complete size f (after_label (c ∷ src)) (out ++ (length l ∷ l)) ls
          (omega (arith, after_label-shorter c src)) small rest p.1 q.1
        ∙ ap (λ w. done (some w)) (append_assoc out (length l ∷ l) (wire ls)))

pub length-with_dot_le : (s : List ℕ) → length (with_dot s) ≤ length s + 1
length-with_dot_le [] = omega arith
length-with_dot_le (c ∷ []) = ground arith
length-with_dot_le (c ∷ d ∷ s) = omega (arith, length-with_dot_le (d ∷ s))

-- A name that the encoder drops its dot from: what `ruli_dname_encode` makes of `dname`.
pub drop_dot_total :
    (dname : List ℕ)
    → 1 ≤ length dname
    → (name : List ℕ) × (drop_dot dname ≡ done name) × (length name ≤ length dname)
unfolding drop_dot
drop_dot_total dname h = (
  (if get_or dname (length dname - 1) 0 == dot then take (length dname - 1) dname else dname),
  ground (arith, get_elem?-eq-get_or dname (length dname - 1) 0 (omega arith)),
  ground (arith, length-take (length dname - 1) dname),
)

encode_fitting_total :
    (size : ℕ) (name : List ℕ) → (r : Option (List ℕ)) × (encode_fitting size name ≡ done r)
unfolding encode_fitting
encode_fitting_total size name = elim (Bool-cases (ltb size (length name + 2))) [
  | inl e ↦ (none, rw e)
  | inr e ↦ elim (Bool-cases (ltb dname_encoded (length name))) [
    | inl e' ↦ (none, rw (e, e'))
    | inr e' ↦
        let (r, t) =
          encode_labels-total size (length name + 1) name [] (omega arith)
            (omega (arith, length-with_dot_le name, not_ltb→le size (length name + 2) e)) in
        (r, rw (e, e') t)
  ]
]

encode_fitting-some :
    (size : ℕ) (name : List ℕ) {w : List ℕ}
    → encode_fitting size name ≡ done (some w)
    → encode_labels size (length name + 1) name [] ≡ done (some w)
unfolding encode_fitting
encode_fitting-some size name h = ground arith

-- `ruli_dname_encode` never faults on a name of at least one byte: no assertion fails, no byte is read
-- or written outside of its buffers, and the loop ends.
pub dname_encode_total :
    (size : ℕ) (dname : List ℕ)
    → 1 ≤ length dname
    → (r : Option (List ℕ)) × (dname_encode size dname ≡ done r)
unfolding dname_encode
dname_encode_total size dname h =
    let (name, d, le) = drop_dot_total dname h in rw d (encode_fitting_total size name)

-- What `ruli_dname_encode` returns for a name is the wire format of the name with a dot at its end:
-- labels of 1 to 63 bytes without a dot, within the buffer, and at most two bytes longer than the name
-- without its last dot.
pub dname_encode_sound :
    (size : ℕ) (dname name : List ℕ) {w : List ℕ}
    → drop_dot dname ≡ done name
    → dname_encode size dname ≡ done (some w)
    → IsWireOf size [] (with_dot name) w × (length w ≤ length name + 2)
unfolding dname_encode
dname_encode_sound size dname name {w} d h =
    let s =
      encode_labels_sound size (length name + 1) name []
        (encode_fitting-some size name (rw d at h)) in
    (
      s,
      omega (
        arith,
        ap length s.written,
        length-wire s.labels,
        ap length s.spelled,
        length-with_dot_le name,
      ),
    )

-- Every name of labels of 1 to 63 bytes without a dot, with at most 255 bytes of text before its last
-- dot, is encoded where the buffer has room for two bytes more, with or without a dot at its end. The
-- encoded name has one byte more than the text with its last dot: for texts of 254 and 255 bytes
-- before it 256 and 257 bytes, more than the 255 that the limits allow.
pub dname_encode_complete :
    (size : ℕ) (dname name : List ℕ) (ls : List (List ℕ))
    → drop_dot dname ≡ done name
    → text ls ≡ with_dot name
    → All IsLabel ls
    → All NoDot ls
    → length name ≤ 255
    → length name + 2 ≤ size
    → (dname_encode size dname ≡ done (some (wire ls)))
      × (length (wire ls) ≡ length (with_dot name) + 1)
unfolding dname_encode
dname_encode_complete size dname name ls d e p q short room = (
  rw d (
      fitting (
        encode_labels_complete size (length name + 1) name [] ls (omega arith)
          (omega (arith, length-wire ls, ap length e, length-with_dot_le name)) e p q)),
  omega (arith, length-wire ls, ap length e),
)
  where
    fitting :
        encode_labels size (length name + 1) name [] ≡ done (some (wire ls))
        → encode_fitting size name ≡ done (some (wire ls))
    fitting h = unfold encode_fitting in ground arith
