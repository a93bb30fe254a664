-- ===== src/Txt/Compare/Tests.antt =====
-- Names compared and joined.
use ruli.Common.{
  ℕ, true, List, [], ◌∷◌, ◌++◌, some, none, refl, arith, ◌≡◌, ◌↔◌, ◌≤◌, done, length, ltb, leb,
  ◌||◌, if◌then◌else◌,
}
use ruli.Limits.{compression_depth, dname_encoded}
use ruli.Txt.Names.{wire}
use ruli.Txt.Encode.{drop_dot}
use ruli.Txt.Expand.Names.{NameAt}
use ruli.Txt.Compare.{case_equal, dname_match, dname_compare, dname_concat}
use ruli.Txt.Compare.Labels.{dname_compare_iff, dname_concat-wire}

abbrev pointed : List ℕ
pointed = 1 ∷ b'a' ∷ 0 ∷ 192 ∷ 0 ∷ []

abbrev name : List ℕ
name = 1 ∷ b'a' ∷ 0 ∷ []

same_name : dname_match (b'a' ∷ b'.' ∷ b'C' ∷ []) (b'A' ∷ b'.' ∷ b'c' ∷ b'.' ∷ []) ≡ done true
unfolding dname_match case_equal drop_dot
same_name = refl

dname_compare_iff_example : (dname_compare pointed 5 3 name ≡ done true) ↔ (
    (ls : List (List ℕ)) × NameAt pointed 5 compression_depth 3 ls
    × (name ≡ wire ls)
    × (length name ≤ dname_encoded))
dname_compare_iff_example = dname_compare_iff pointed 5 3 name

abbrev host : List (List ℕ)
host = (b'a' ∷ []) ∷ []

abbrev domain : List (List ℕ)
domain = (b'b' ∷ b'c' ∷ []) ∷ []

dname_concat-wire_example : dname_concat 9 (wire host) (wire domain) ≡ (
    if ltb dname_encoded (length (wire (host ++ domain)))
      || (ltb 9 (length (wire (host ++ domain))) || leb 9 (length (wire domain)))
    then done none
    else done (some (wire (host ++ domain))))
dname_concat-wire_example = dname_concat-wire 9 host domain (omega arith) (omega arith)
