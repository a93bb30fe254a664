-- ===== src/Common/Posts.antt =====
-- What holds after a call: `Returns` says that it returns a value with the property, `Keeps` that the value has it if
-- the call returns.
use Prim.Native.Nat.{ℕ}
use mathlib.Core.Path.{◌≡◌, refl}
use mathlib.Core.Logic.{inl, inr}
use mathlib.Core.Bool.{Bool, true, false}
use mathlib.Core.Option.{some, Option, none}
use mathlib.Core.List.{List}
use ruli.Common.Tests.{Option-cases, if◌then◌else◌}
use ruli.Common.Lists.{get_elem?}
use ruli.Common.Effects.{Run, done, abort, bad_read, bad_write, no_fuel, ◌>>=◌, ◌>>◌, check, read}

abbrev pub Returns {ℓ} : {A : Type ℓ} → (A → Type 0) → Run A → Type 0
Returns P (done a) = P a
Returns P abort = ⊥
Returns P bad_read = ⊥
Returns P bad_write = ⊥
Returns P no_fuel = ⊥

abbrev pub Keeps {ℓ} : {A : Type ℓ} → (A → Type 0) → Run A → Type 0
Keeps P (done a) = P a
Keeps P abort = Unit
Keeps P bad_read = Unit
Keeps P bad_write = Unit
Keeps P no_fuel = Unit

module _ {ℓ} {A : Type ℓ} where
  pub Returns-Keeps : (P : A → Type 0) (m : Run A) → Returns P m → Keeps P m
  Returns-Keeps P (done a) h = h
  Returns-Keeps P abort h = absurd h
  Returns-Keeps P bad_read h = absurd h
  Returns-Keeps P bad_write h = absurd h
  Returns-Keeps P no_fuel h = absurd h

  pub Returns-done : (P : A → Type 0) (m : Run A) → Returns P m → (a : A) × (m ≡ done a) × P a
  Returns-done P (done a) h = (a, refl, h)
  Returns-done P abort h = absurd h
  Returns-done P bad_read h = absurd h
  Returns-done P bad_write h = absurd h
  Returns-done P no_fuel h = absurd h

  pub Keeps-done : (P : A → Type 0) (m : Run A) (a : A) → Keeps P m → m ≡ done a → P a
  Keeps-done P m a k e = let k' = rw (e) at k in k'

  pub Keeps-weaken : (P Q : A → Type 0) (m : Run A) → Keeps P m → ((a : A) → P a → Q a) → Keeps Q m
  Keeps-weaken P Q (done a) h k = k a h
  Keeps-weaken P Q abort h k = tt
  Keeps-weaken P Q bad_read h k = tt
  Keeps-weaken P Q bad_write h k = tt
  Keeps-weaken P Q no_fuel h k = tt

  pub Keeps-both : (P Q : A → Type 0) (m : Run A) → Keeps P m → Keeps Q m → Keeps (λ a. P a × Q a) m
  Keeps-both P Q (done a) h k = (h, k)
  Keeps-both P Q abort h k = tt
  Keeps-both P Q bad_read h k = tt
  Keeps-both P Q bad_write h k = tt
  Keeps-both P Q no_fuel h k = tt

module _ {ℓ κ} {A : Type ℓ} {B : Type κ} where
  pub Returns->>= :
      (P : A → Type 0) (Q : B → Type 0) (m : Run A) (f : A → Run B)
      → Returns P m
      → ((a : A) → P a → Returns Q (f a))
      → Returns Q (m >>= f)
  Returns->>= P Q (done a) f h k = k a h
  Returns->>= P Q abort f h k = absurd h
  Returns->>= P Q bad_read f h k = absurd h
  Returns->>= P Q bad_write f h k = absurd h
  Returns->>= P Q no_fuel f h k = absurd h

  pub Keeps->>= :
      (P : A → Type 0) (Q : B → Type 0) (m : Run A) (f : A → Run B)
      → Keeps P m
      → ((a : A) → P a → Keeps Q (f a))
      → Keeps Q (m >>= f)
  Keeps->>= P Q (done a) f h k = k a h
  Keeps->>= P Q abort f h k = tt
  Keeps->>= P Q bad_read f h k = tt
  Keeps->>= P Q bad_write f h k = tt
  Keeps->>= P Q no_fuel f h k = tt

  pub Keeps-any :
      (Q : B → Type 0) (m : Run A) (f : A → Run B) → ((a : A) → Keeps Q (f a)) → Keeps Q (m >>= f)
  Keeps-any Q (done a) f k = k a
  Keeps-any Q abort f k = tt
  Keeps-any Q bad_read f k = tt
  Keeps-any Q bad_write f k = tt
  Keeps-any Q no_fuel f k = tt

  pub Returns-eq :
      (Q : B → Type 0) (m : Run A) (a : A) (f : A → Run B)
      → m ≡ done a
      → Returns Q (f a)
      → Returns Q (m >>= f)
  Returns-eq Q m a f e h = rw (e) h

  pub Returns-read :
      (Q : B → Type 0) (xs : List A) (i : ℕ) (a : A) (f : A → Run B)
      → get_elem? xs i ≡ some a
      → Returns Q (f a)
      → Returns Q (read xs i >>= f)
  Returns-read Q xs i a f e h = rw (e, read) h

  pub Keeps-found :
      (Q : B → Type 0) (xs : List A) (i : ℕ) (a : A) (f : A → Run B)
      → get_elem? xs i ≡ some a
      → Keeps Q (f a)
      → Keeps Q (read xs i >>= f)
  Keeps-found Q xs i a f e h = rw (e, read) h

  pub Keeps-read :
      (Q : B → Type 0) (xs : List A) (i : ℕ) (f : A → Run B)
      → ((a : A) → get_elem? xs i ≡ some a → Keeps Q (f a))
      → Keeps Q (read xs i >>= f)
  Keeps-read Q xs i f k = elim (Option-cases (get_elem? xs i)) [
    | inl e ↦ rw (e, read) tt
    | inr (a, e) ↦ rw (e, read) (k a e)
  ]

module _ {κ} {B : Type κ} where
  pub Keeps-check :
      (Q : B → Type 0) (b : Bool) (m : Run B) → (b ≡ true → Keeps Q m) → Keeps Q (check b >> m)
  Keeps-check Q true m k = k refl
  Keeps-check Q false m k = tt

  pub Returns-check :
      (Q : B → Type 0) (b : Bool) (m : Run B) → b ≡ true → Returns Q m → Returns Q (check b >> m)
  Returns-check Q true m e k = k
  Returns-check Q false m e k = cc

  pub Keeps-if :
      (Q : B → Type 0) (b : Bool) (m n : Run B)
      → (b ≡ true → Keeps Q m)
      → (b ≡ false → Keeps Q n)
      → Keeps Q (if b then m else n)
  Keeps-if Q true m n h k = h refl
  Keeps-if Q false m n h k = k refl

  pub Returns-if :
      (Q : B → Type 0) (b : Bool) (m n : Run B)
      → (b ≡ true → Returns Q m)
      → (b ≡ false → Returns Q n)
      → Returns Q (if b then m else n)
  Returns-if Q true m n h k = h refl
  Returns-if Q false m n h k = k refl

  -- The same for the two ways in which a `do` block goes on.
  pub Keeps-bool :
      (Q : B → Type 0) (b : Bool) (m n : Run B)
      → Keeps Q m
      → Keeps Q n
      → Keeps Q (elim b [ true ↦ m | false ↦ n ])
  Keeps-bool Q true m n h k = h
  Keeps-bool Q false m n h k = k

  pub Keeps-choice :
      (Q : B → Type 0) (b : Bool) (m n : Run B)
      → (b ≡ true → Keeps Q m)
      → (b ≡ false → Keeps Q n)
      → Keeps Q (elim b [ true ↦ m | false ↦ n ])
  Keeps-choice Q true m n h k = h refl
  Keeps-choice Q false m n h k = k refl

  pub Returns-bool :
      (Q : B → Type 0) (b : Bool) (m n : Run B)
      → (b ≡ true → Returns Q m)
      → (b ≡ false → Returns Q n)
      → Returns Q (elim b [ true ↦ m | false ↦ n ])
  Returns-bool Q true m n h k = h refl
  Returns-bool Q false m n h k = k refl

  pub Keeps-option {ℓ} :
      {A : Type ℓ} (Q : B → Type 0) (o : Option A) (m : Run B) (f : A → Run B)
      → (o ≡ none → Keeps Q m)
      → ((a : A) → o ≡ some a → Keeps Q (f a))
      → Keeps Q (elim o [ none ↦ m | some a ↦ f a ])
  Keeps-option Q none m f h k = h refl
  Keeps-option Q (some a) m f h k = k a refl
