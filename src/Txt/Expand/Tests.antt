-- ===== src/Txt/Expand/Tests.antt =====
-- Compressed names.
use ruli.Txt.Expand.{dname_expand}
use ruli.Common.{
  ℕ, List, [], ◌∷◌, some, refl, arith, ◌≡◌, ◌↔◌, ◌≤◌, ◌<◌, done, bad_read, Option, length, ◌⊎◌, ◌+◌,
}
use ruli.Limits.{compression_depth, dname_encoded}
use ruli.Txt.Names.{wire}
use ruli.Txt.Expand.Names.{NameAt, dname_expand_iff}
use ruli.Txt.Expand.Faults.{IsBytes, dname_expand_total, dname_expand_over_read}

-- The name `a.`, and a pointer to it.
abbrev pointed : List ℕ
pointed = 1 ∷ b'a' ∷ 0 ∷ 192 ∷ 0 ∷ []

abbrev name : List ℕ
name = 1 ∷ b'a' ∷ 0 ∷ []

dname_expand_iff_example : (dname_expand pointed 5 3 ≡ done (some name)) ↔ (
    (ls : List (List ℕ)) × NameAt pointed 5 compression_depth 3 ls
    × (name ≡ wire ls)
    × (length name ≤ dname_encoded))
dname_expand_iff_example = dname_expand_iff pointed 5 3 name

-- A pointer to itself, in an object of just that message.
abbrev circle : List ℕ
circle = 192 ∷ 0 ∷ []

circle-IsBytes : IsBytes circle
circle-IsBytes = omega arith

dname_expand_total_example :
    ((r : Option (List ℕ)) × (dname_expand circle 2 0 ≡ done r))
    ⊎ ((dname_expand circle 2 0 ≡ bad_read) × (length circle < 2 + 191))
dname_expand_total_example = dname_expand_total circle 2 0 circle-IsBytes (omega arith)

dname_expand_over_read_example : dname_expand (0 ∷ 1 ∷ []) 2 1 ≡ bad_read
dname_expand_over_read_example =
    dname_expand_over_read (0 ∷ 1 ∷ []) 1 1 refl refl (ground arith) refl (omega arith)
