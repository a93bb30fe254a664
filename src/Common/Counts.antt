-- ===== src/Common/Counts.antt =====
-- How many items of a list pass a test.
use Prim.Native.Nat.{ℕ, zero, suc, ◌+◌, ◌<◌}
use mathlib.Core.Path.{◌≡◌, refl, ap}
use mathlib.Core.Logic.{◌⊎◌, inl, inr}
use mathlib.Core.Bool.{Bool, true, false}
use mathlib.Core.Option.{some}
use mathlib.Core.List.{List, [], ◌∷◌, ◌++◌}
use native.Mathlib.Omega.{arith}
use ruli.Common.Tests.{◌==◌}
use ruli.Common.Lists.{get_elem?, get_or, length, set}

abbrev pub one : Bool → ℕ
one true = 1
one false = 0

module _ {ℓ} {A : Type ℓ} where
  abbrev pub count : (A → Bool) → List A → ℕ
  count p [] = 0
  count p (x ∷ xs) = one (p x) + count p xs

  pub count-set :
      (p : A → Bool) (xs : List A) (i : ℕ) (a b : A)
      → get_elem? xs i ≡ some a
      → count p (set xs i b) + one (p a) ≡ count p xs + one (p b)
  count-set p [] i a b e = cc
  count-set p (x ∷ xs) zero a b e = ground (arith, e)
  count-set p (x ∷ xs) (suc i) a b e = omega (arith, count-set p xs i a b e)

  pub count_positive :
      (p : A → Bool) (xs : List A) (i : ℕ) (a : A)
      → get_elem? xs i ≡ some a
      → p a ≡ true
      → 0 < count p xs
  count_positive p [] i a e h = cc
  count_positive p (x ∷ xs) zero a e h = ground (arith, e, h)
  count_positive p (x ∷ xs) (suc i) a e h = omega (arith, count_positive p xs i a e h)

  pub count-append : (p : A → Bool) (xs ys : List A) → count p (xs ++ ys) ≡ count p xs + count p ys
  count-append p [] ys = omega arith
  count-append p (x ∷ xs) ys = omega (arith, count-append p xs ys)

  pub get_elem?-set_same :
      (xs : List A) (i : ℕ) (a b : A) → get_elem? xs i ≡ some a → get_elem? (set xs i b) i ≡ some b
  get_elem?-set_same [] i a b e = cc
  get_elem?-set_same (x ∷ xs) zero a b e = refl
  get_elem?-set_same (x ∷ xs) (suc i) a b e = get_elem?-set_same xs i a b e

  pub get_elem?-set :
      (xs : List A) (i j : ℕ) (b : A) → (j == i) ≡ false → get_elem? (set xs i b) j ≡ get_elem? xs j
  get_elem?-set [] i j b e = refl
  get_elem?-set (x ∷ xs) zero zero b e = ground arith
  get_elem?-set (x ∷ xs) zero (suc j) b e = refl
  get_elem?-set (x ∷ xs) (suc i) zero b e = refl
  get_elem?-set (x ∷ xs) (suc i) (suc j) b e = get_elem?-set xs i j b (ground (arith, e))

  pub get_or-set_same :
      (xs : List A) (i : ℕ) (a b d : A) → get_elem? xs i ≡ some a → get_or (set xs i b) i d ≡ b
  get_or-set_same [] i a b d e = cc
  get_or-set_same (x ∷ xs) zero a b d e = refl
  get_or-set_same (x ∷ xs) (suc i) a b d e = get_or-set_same xs i a b d e

  pub get_or-set :
      (xs : List A) (i j : ℕ) (b d : A) → (i == j) ≡ false → get_or (set xs i b) j d ≡ get_or xs j d
  get_or-set [] i j b d e = refl
  get_or-set (x ∷ xs) zero zero b d e = ground arith
  get_or-set (x ∷ xs) zero (suc j) b d e = refl
  get_or-set (x ∷ xs) (suc i) zero b d e = refl
  get_or-set (x ∷ xs) (suc i) (suc j) b d e = get_or-set xs i j b d (ground (arith, e))

  pub get_elem?→get_or :
      (xs : List A) (i : ℕ) (a d : A) → get_elem? xs i ≡ some a → get_or xs i d ≡ a
  get_elem?→get_or [] i a d e = cc
  get_elem?→get_or (x ∷ xs) zero a d e = ground (arith, e)
  get_elem?→get_or (x ∷ xs) (suc i) a d e = get_elem?→get_or xs i a d e

  pub get_elem?_bounds : (xs : List A) (i : ℕ) (a : A) → get_elem? xs i ≡ some a → i < length xs
  get_elem?_bounds [] i a e = cc
  get_elem?_bounds (x ∷ xs) zero a e = omega arith
  get_elem?_bounds (x ∷ xs) (suc i) a e = omega (arith, get_elem?_bounds xs i a e)

  -- What is found behind a store: the item stored, or one that was there before.
  pub get_elem?-set_cases :
      (xs : List A) (i j : ℕ) (b c : A)
      → get_elem? (set xs i b) j ≡ some c
      → ((j ≡ i) × (b ≡ c)) ⊎ (get_elem? xs j ≡ some c)
  get_elem?-set_cases [] i j b c e = inr e
  get_elem?-set_cases (x ∷ xs) zero zero b c e = inl (refl, cc)
  get_elem?-set_cases (x ∷ xs) zero (suc j) b c e = inr e
  get_elem?-set_cases (x ∷ xs) (suc i) zero b c e = inr e
  get_elem?-set_cases (x ∷ xs) (suc i) (suc j) b c e = elim (get_elem?-set_cases xs i j b c e) [
    | inl (at, same) ↦ inl (ap suc at, same)
    | inr before ↦ inr before
  ]

  -- What is found in a list with one item more: that item, or one that was there before.
  pub get_elem?-snoc_cases :
      (xs : List A) (i : ℕ) (a b : A)
      → get_elem? (xs ++ (a ∷ [])) i ≡ some b
      → ((i ≡ length xs) × (a ≡ b)) ⊎ (get_elem? xs i ≡ some b)
  get_elem?-snoc_cases [] zero a b e = inl (refl, cc)
  get_elem?-snoc_cases [] (suc i) a b e = cc
  get_elem?-snoc_cases (x ∷ xs) zero a b e = inr e
  get_elem?-snoc_cases (x ∷ xs) (suc i) a b e = elim (get_elem?-snoc_cases xs i a b e) [
    | inl (at, same) ↦ inl (ap suc at, same)
    | inr before ↦ inr before
  ]

  pub get_elem?-snoc_last : (xs : List A) (a : A) → get_elem? (xs ++ (a ∷ [])) (length xs) ≡ some a
  get_elem?-snoc_last [] a = refl
  get_elem?-snoc_last (x ∷ xs) a = get_elem?-snoc_last xs a
