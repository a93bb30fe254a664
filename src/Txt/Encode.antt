-- ===== src/Txt/Encode.antt =====
-- `ruli_dname_encode` and its helpers: a name in text to wire format.
--
-- The object at `dname` has exactly `dname_len` bytes. What is left between `src` and `src_pastend`
-- is a list, and what is stored between `buf` and `dst` is another; `some w` returns the pointer
-- behind the bytes `w` stored at `buf`, and `none` is the null pointer.
pub mod Labels
pub mod Wire
mod Tests
use ruli.Common.{
  ℕ, zero, suc, ◌+◌, ◌-◌, ◌%◌, ◌^◌, Bool, true, false, Option, none, some, List, [], ◌∷◌,
}
use ruli.Common.{
  length, take, drop, ltb, leb, ◌==◌, if◌then◌else◌, Run, done, bad_read, no_fuel, check, read,
  write, ◌>>=◌, ◌>>◌,
}
use ruli.Limits.{label_low, label_high, dname_encoded}
use ruli.Txt.Names.{dot}

-- `build_label`, at the end of `out` in a buffer of `size` bytes.
pub build_label : ℕ → List ℕ → List ℕ → Run (Option (List ℕ))
build_label size out label =
    if ltb (length label) label_low
    then done none
    else if ltb label_high (length label)
    then done none
    else if ltb (size - length out) (length label + 1)
    then done none
    else do out' ← write size out ((length label % 2 ^ 8) ∷ label); done (some out')

-- The bytes before the first dot: `for (i = src; i < src_pastend; ++i) if (*i == '.') break;`.
pub find_label : List ℕ → List ℕ
find_label [] = []
find_label (c ∷ src) = if c == dot then [] else c ∷ find_label src

-- The loop over the labels. `src += len` may step over `src_pastend` by one.
pub encode_labels : ℕ → ℕ → List ℕ → List ℕ → Run (Option (List ℕ))
encode_labels size zero src out = no_fuel
encode_labels size (suc f) [] out = do
  check (ltb (length out) size)
  out' ← write size out (0 ∷ [])
  done (some out')
encode_labels size (suc f) (c ∷ src) out = do
  r ← build_label size out (find_label (c ∷ src))
  elim r [
    | none ↦ done none
    | some out' ↦ encode_labels size f (drop (suc (length (find_label (c ∷ src)))) (c ∷ src)) out'
  ]

-- `dname[dname_len - 1]`
last_char : List ℕ → Run ℕ
last_char dname = if length dname == 0 then bad_read else read dname (length dname - 1)

-- `if (dname[dname_len - 1] == '.') --dname_len;`
unfoldable pub drop_dot : List ℕ → Run (List ℕ)
unfolding last_char
drop_dot dname = do
  c ← last_char dname
  done (if c == dot then take (length dname - 1) dname else dname)

pub dname_encode_size : List ℕ → Run ℕ
unfolding last_char
dname_encode_size dname = do
  c ← last_char dname
  done (if c == dot then length dname + 1 else length dname + 2)

pub encode_fitting : ℕ → List ℕ → Run (Option (List ℕ))
encode_fitting size name =
    if ltb size (length name + 2)
    then done none
    else if ltb dname_encoded (length name)
    then done none
    else encode_labels size (length name + 1) name []

pub dname_encode : ℕ → List ℕ → Run (Option (List ℕ))
dname_encode size dname = do name ← drop_dot dname; encode_fitting size name
