-- ===== src/Txt/Compare.antt =====
-- `ruli_dname_match`, `ruli_dname_compare` and `ruli_dname_concat`.
--
-- An uncompressed name is the list of its bytes; a compressed one is an index of a message.
pub mod Labels
mod Tests
use ruli.Common.{
  bytes_equal, ℕ, suc, ◌+◌, ◌-◌, Bool, true, false, ◌&&◌, Option, none, some, List, [], ◌∷◌,
}
use ruli.Common.{
  ◌++◌, length, take, ltb, leb, ◌==◌, if◌then◌else◌, Run, done, abort, check, read, write, ◌>>=◌,
  ◌>>◌,
}
use ruli.Limits.{dname_encoded}
use ruli.Txt.Encode.{drop_dot}
use ruli.Txt.Expand.{dname_expand}

-- `tolower` in the C locale.
abbrev pub to_lower : ℕ → ℕ
to_lower c = if leb b'A' c && leb c b'Z' then c + 32 else c

-- `!strncasecmp(a, b, n)` of two objects of `n` bytes: it ends at a NUL that both have.
pub case_equal : List ℕ → List ℕ → Bool
case_equal [] [] = true
case_equal [] (y ∷ ys) = false
case_equal (x ∷ xs) [] = false
case_equal (x ∷ xs) (y ∷ ys) =
    if to_lower x == to_lower y then (if x == 0 then true else case_equal xs ys) else false

-- `true` is the non-zero result.
pub dname_match : List ℕ → List ℕ → Run Bool
dname_match name1 name2 = do
  a ← drop_dot name1
  b ← drop_dot name2
  if length a == length b then done (case_equal a b) else done false

-- `true` is RULI_TXT_OK. The expansion of the compressed name is asserted to succeed.
unfoldable pub dname_compare : List ℕ → ℕ → ℕ → List ℕ → Run Bool
dname_compare msg msg_len comp_name uncomp_name = do
  r ← dname_expand msg msg_len comp_name
  elim r [
    | none ↦ abort
    | some name ↦
        if length name == length uncomp_name
        then done (bytes_equal name uncomp_name)
        else done false
  ]

-- The guards and the two copies, behind the assertions; `len1` is one less than the length of
-- `src1`.
pub concat_copy : ℕ → List ℕ → List ℕ → Run (Option (List ℕ))
concat_copy dst_buf_len src1 src2 =
    let len1 = length src1 - 1 in
    if ltb dname_encoded (len1 + length src2)
    then done none
    else if leb dst_buf_len len1
    then done none
    else if leb dst_buf_len (length src2)
    then done none
    else if ltb dst_buf_len (len1 + length src2)
    then done none
    else do
      out ← write dst_buf_len [] (take len1 src1)
      out' ← write dst_buf_len out src2
      done (some out')

pub dname_concat : ℕ → List ℕ → List ℕ → Run (Option (List ℕ))
dname_concat dst_buf_len src1 src2 = do
  check (ltb 0 (length src1))
  check (ltb 0 (length src2))
  check (ltb (length src1) dname_encoded)
  check (ltb (length src2) dname_encoded)
  last1 ← read src1 (length src1 - 1)
  check (last1 == 0)
  last2 ← read src2 (length src2 - 1)
  check (last2 == 0)
  concat_copy dst_buf_len src1 src2
