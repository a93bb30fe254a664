-- ===== src/Txt/Names.antt =====
-- What a domain name is, independent of the code: a list of labels, with its two spellings.
use ruli.Common.{
  ℕ, ◌+◌, ◌≤◌, ◌≢◌, ◌≡◌, refl, List, [], ◌∷◌, ◌++◌, length, All, arith, length-append,
  if◌then◌else◌, ◌==◌,
}

abbrev pub dot : ℕ
dot = b'.'

-- Each label behind its length, and the empty label at the end.
abbrev pub wire : List (List ℕ) → List ℕ
wire [] = 0 ∷ []
wire (l ∷ ls) = length l ∷ (l ++ wire ls)

-- Each label before a dot.
abbrev pub text : List (List ℕ) → List ℕ
text [] = []
text (l ∷ ls) = l ++ (dot ∷ text ls)

abbrev pub IsLabel : List ℕ → Type 0
IsLabel l = (1 ≤ length l) × (length l ≤ 63)

abbrev pub NoDot : List ℕ → Type 0
NoDot l = All (λ c. c ≢ dot) l

-- The name with a dot at its end, which is added where there is none; the name of the root, which has no labels, is the
-- empty text.
abbrev pub with_dot : List ℕ → List ℕ
with_dot [] = []
with_dot (c ∷ []) = if c == dot then dot ∷ [] else c ∷ dot ∷ []
with_dot (c ∷ d ∷ s) = c ∷ with_dot (d ∷ s)

pub length-wire : (ls : List (List ℕ)) → length (wire ls) ≡ length (text ls) + 1
length-wire [] = refl
length-wire (l ∷ ls) =
    omega (arith, length-append l (wire ls), length-append l (dot ∷ text ls), length-wire ls)
