-- ===== src/Common/Effects.antt =====
-- What one call of a C function does: it returns a value, or it stops the program.
use Prim.Native.Nat.{ℕ, ◌+◌, ◌<◌}
use mathlib.Core.Path.{◌≡◌, refl}
use mathlib.Core.Logic.{◌↔◌}
use mathlib.Core.Bool.{Bool, true, false}
use mathlib.Core.Option.{none, some}
use mathlib.Core.List.{List, [], ◌∷◌, ◌++◌}
use native.Mathlib.Omega.{arith}
use ruli.Common.Tests.{◌==◌, leb, if◌then◌else◌}
use ruli.Common.Lists.{get_elem?-append, take, drop, get_elem?, get_or, get_elem?-eq-get_or, length}

-- `abort` is a failed `assert`, `bad_read` and `bad_write` are accesses outside of an object, and
-- `no_fuel` is a loop of the model that was given too few rounds.
pub data Run {ℓ} (A : Type ℓ) : Type ℓ where
  done : A → Run A
  abort bad_read bad_write no_fuel : Run A

infixl 5 ◌>>=◌ ◌>>◌
abbrev pub ◌>>=◌ {ℓ κ} : {A : Type ℓ} {B : Type κ} → Run A → (A → Run B) → Run B
done a >>= f = f a
abort >>= f = abort
bad_read >>= f = bad_read
bad_write >>= f = bad_write
no_fuel >>= f = no_fuel

abbrev pub ◌>>◌ {ℓ} : {B : Type ℓ} → Run (Unit {0}) → Run B → Run B
m >> k = m >>= λ _. k

-- The C `assert`, which stops the program when its test fails.
abbrev pub check : Bool → Run (Unit {0})
check true = done tt
check false = abort

-- The byte at index `i` of an object.
abbrev pub read {ℓ} : {A : Type ℓ} → List A → ℕ → Run A
read m i = elim (get_elem? m i) [ none ↦ bad_read | some b ↦ done b ]

pub read-eq-done : (m : List ℕ) (i : ℕ) → i < length m → read m i ≡ done (get_or m i 0)
read-eq-done m i h = ground (arith, get_elem?-eq-get_or m i 0 h)

pub >>=-eq-done {ℓ κ} :
    {A : Type ℓ} {B : Type κ} (m : Run A) (f : A → Run B) {b : B}
    → (m >>= f) ≡ done b
    → (a : A) × (m ≡ done a) × (f a ≡ done b)
>>=-eq-done (done a) f h = (a, refl, h)
>>=-eq-done abort f h = cc
>>=-eq-done bad_read f h = cc
>>=-eq-done bad_write f h = cc
>>=-eq-done no_fuel f h = cc

pub read-append {ℓ} :
    {A : Type ℓ} (xs ys : List A) (i j : ℕ) → i ≡ length xs + j → read (xs ++ ys) i ≡ read ys j
read-append xs ys i j e = rw (get_elem?-append xs ys i j e, read)

-- The `n` bytes of an object from index `i` on, as `memcpy` reads them.
abbrev pub read_range {ℓ} : {A : Type ℓ} → List A → ℕ → ℕ → Run (List A)
read_range m i n = if leb (i + n) (length m) then done (take n (drop i m)) else bad_read

-- Bytes stored behind those that a buffer of `size` bytes holds already.
abbrev pub write {ℓ} : {A : Type ℓ} → ℕ → List A → List A → Run (List A)
write size out bytes =
    if leb (length out + length bytes) size then done (out ++ bytes) else bad_write

-- `!memcmp(a, b, n)` of two objects of `n` bytes.
abbrev pub bytes_equal : List ℕ → List ℕ → Bool
bytes_equal [] [] = true
bytes_equal [] (y ∷ ys) = false
bytes_equal (x ∷ xs) [] = false
bytes_equal (x ∷ xs) (y ∷ ys) = if x == y then bytes_equal xs ys else false

pub bytes_equal_iff : (a b : List ℕ) → (bytes_equal a b ≡ true) ↔ (a ≡ b)
bytes_equal_iff [] [] = ground arith
bytes_equal_iff [] (y ∷ b) = ground arith
bytes_equal_iff (x ∷ a) [] = ground arith
bytes_equal_iff (x ∷ a) (y ∷ b) = ground (arith, bytes_equal_iff a b)
