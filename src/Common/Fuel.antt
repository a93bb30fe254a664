-- ===== src/Common/Fuel.antt =====
-- What holds after a call that does not run out of rounds: `Ends` says that it stops, and that its value has the property
-- if it returns one.
use Prim.Native.Nat.{ℕ}
use mathlib.Core.Path.{◌≡◌, refl}
use mathlib.Core.Logic.{inl, inr}
use mathlib.Core.Bool.{Bool, true, false}
use mathlib.Core.Option.{some}
use mathlib.Core.List.{List}
use ruli.Common.Tests.{Option-cases, if◌then◌else◌}
use ruli.Common.Lists.{get_elem?}
use ruli.Common.Effects.{Run, done, abort, bad_read, bad_write, no_fuel, ◌>>=◌, ◌>>◌, check, read}

abbrev pub Ends {ℓ} : {A : Type ℓ} → (A → Type 0) → Run A → Type 0
Ends P (done a) = P a
Ends P abort = Unit
Ends P bad_read = Unit
Ends P bad_write = Unit
Ends P no_fuel = ⊥

abbrev pub Stops {ℓ} : {A : Type ℓ} → Run A → Type 0
Stops m = Ends (λ a. Unit) m

pub not-no_fuel {ℓ} : {A : Type ℓ} (m : Run A) → Stops m → ¬ (m ≡ no_fuel)
not-no_fuel m h e = let h' = rw (e) at h in absurd h'

module _ {ℓ κ} {A : Type ℓ} {B : Type κ} where
  pub Ends->>= :
      (P : A → Type 0) (Q : B → Type 0) (m : Run A) (f : A → Run B)
      → Ends P m
      → ((a : A) → P a → Ends Q (f a))
      → Ends Q (m >>= f)
  Ends->>= P Q (done a) f h k = k a h
  Ends->>= P Q abort f h k = tt
  Ends->>= P Q bad_read f h k = tt
  Ends->>= P Q bad_write f h k = tt
  Ends->>= P Q no_fuel f h k = absurd h

  pub Ends-read :
      (Q : B → Type 0) (xs : List A) (i : ℕ) (f : A → Run B)
      → ((a : A) → get_elem? xs i ≡ some a → Ends Q (f a))
      → Ends Q (read xs i >>= f)
  Ends-read Q xs i f k = elim (Option-cases (get_elem? xs i)) [
    | inl e ↦ rw (e, read) tt
    | inr (a, e) ↦ rw (e, read) (k a e)
  ]

module _ {κ} {B : Type κ} where
  -- A read at the end of a call.
  pub Ends-last : (Q : B → Type 0) (xs : List B) (i : ℕ) → ((a : B) → Q a) → Ends Q (read xs i)
  Ends-last Q xs i k = elim (Option-cases (get_elem? xs i)) [
    | inl e ↦ rw (e, read) tt
    | inr (a, e) ↦ rw (e, read) (k a)
  ]

  pub Ends-check :
      (Q : B → Type 0) (b : Bool) (m : Run B) → (b ≡ true → Ends Q m) → Ends Q (check b >> m)
  Ends-check Q true m k = k refl
  Ends-check Q false m k = tt

  pub Ends-if :
      (Q : B → Type 0) (b : Bool) (m n : Run B)
      → (b ≡ true → Ends Q m)
      → (b ≡ false → Ends Q n)
      → Ends Q (if b then m else n)
  Ends-if Q true m n h k = h refl
  Ends-if Q false m n h k = k refl

  pub Ends-bool :
      (Q : B → Type 0) (b : Bool) (m n : Run B)
      → (b ≡ true → Ends Q m)
      → (b ≡ false → Ends Q n)
      → Ends Q (elim b [ true ↦ m | false ↦ n ])
  Ends-bool Q true m n h k = h refl
  Ends-bool Q false m n h k = k refl
