-- ===== src/Txt/Encode/Labels.antt =====
-- The label loop of the encoder: how it cuts the text, and what one label does to the buffer.
use ruli.Common.{ℕ, suc, ◌+◌, ◌%◌, ◌≤◌, ◌≡◌, refl, ap, arith, List, [], ◌∷◌, ◌++◌}
use ruli.Common.{
  length, drop, none, some, done, ◌==◌, length-append, Bool-cases, inl, inr, ==_iff, ◌⊎◌,
}
use ruli.Txt.Names.{dot, with_dot, IsLabel, NoDot}
use ruli.Txt.Encode.{build_label, find_label}

pub find_label-NoDot : (s : List ℕ) → NoDot (find_label s)
unfolding find_label
find_label-NoDot [] = tt
find_label-NoDot (c ∷ s) = elim (Bool-cases (c == dot)) [
  | inl e ↦ rw e tt
  | inr e ↦ rw e ((λ h. ground arith), find_label-NoDot s)
]

-- The rest after the first label and its dot.
abbrev pub after_label : List ℕ → List ℕ
after_label s = drop (suc (length (find_label s))) s

pub with_dot_split :
    (c : ℕ) (s : List ℕ)
    → with_dot (c ∷ s) ≡ find_label (c ∷ s) ++ (dot ∷ with_dot (after_label (c ∷ s)))
unfolding find_label
with_dot_split c [] = ground arith
with_dot_split c (d ∷ s) = elim (Bool-cases (c == dot)) [
  | inl e ↦ rw e (ap (λ k. k ∷ with_dot (d ∷ s)) ((==_iff c dot).0 e))
  | inr e ↦ rw e (ap (◌∷◌ c) (with_dot_split d s))
]

-- A label that is stored is one of 1 to 63 bytes, and the buffer had room for it.
pub build_label-some :
    (size : ℕ) (out label : List ℕ) {out' : List ℕ}
    → build_label size out label ≡ done (some out')
    → IsLabel label × (out' ≡ out ++ (length label ∷ label)) × (length out' ≤ size)
unfolding build_label
build_label-some size out label h = ground (arith, length-append out (length label % 256 ∷ label))

pub build_label_fits :
    (size : ℕ) (out label : List ℕ)
    → IsLabel label
    → length out + suc (length label) ≤ size
    → build_label size out label ≡ done (some (out ++ (length label ∷ label)))
unfolding build_label
build_label_fits size out label l h = ground arith

-- A label that is refused is too short or too long, where the buffer has room.
pub build_label_total :
    (size : ℕ) (out label : List ℕ)
    → length out + suc (length label) ≤ size
    → (build_label size out label ≡ done none)
      ⊎ (build_label size out label ≡ done (some (out ++ (length label ∷ label))))
unfolding build_label
build_label_total size out label h = ground arith

pub nodot_split :
    (l m xs ys : List ℕ)
    → NoDot l
    → NoDot m
    → l ++ (dot ∷ xs) ≡ m ++ (dot ∷ ys)
    → (l ≡ m) × (xs ≡ ys)
nodot_split [] [] xs ys p q e = (refl, cc)
nodot_split [] (c ∷ m) xs ys p q e = absurd (q.0 (cc))
nodot_split (c ∷ l) [] xs ys p q e = absurd (p.0 (cc))
nodot_split (c ∷ l) (d ∷ m) xs ys p q e = let r = nodot_split l m xs ys p.1 q.1 (cc) in (cc, r.1)
