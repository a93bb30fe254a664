-- ===== src/Res/Delete/Dropped.antt =====
-- The list without the item at an index, whose place the last item takes.
use ruli.Common.{
  length-take, ne→not_==, get_elem?-set_same, ℕ, zero, suc, ◌+◌, ◌-◌, ◌<◌, ◌≡◌, sym, ap, ◌∙◌, ◌==◌,
  Bool, false, some, List, [], ◌∷◌, length, length-set, set, take, get_elem?, one, count, count-set,
  arith, get_elem?-set_cases, get_elem?-set, get_elem?_bounds, Bool-cases, inl, inr, ◌⊎◌,
  if◌then◌else◌, ==_iff,
}

pub not_equal : (i j : ℕ) → (i == j) ≡ false → (j == i) ≡ false
not_equal i j e = ground (arith, e)

module _ {ℓ} {A : Type ℓ} where
  abbrev pub drop_slot : List A → ℕ → A → List A
  drop_slot xs idx last =
      let size = length xs - 1 in if idx == size then take size xs else take size (set xs idx last)

  pub some_same : {a b : A} → some a ≡ some b → a ≡ b
  some_same e = cc

  count-take :
      (p : A → Bool) (xs : List A) (n : ℕ) (last : A)
      → length xs ≡ suc n
      → get_elem? xs n ≡ some last
      → count p (take n xs) + one (p last) ≡ count p xs
  count-take p [] n last l e = cc
  count-take p (x ∷ []) zero last l e = ground (arith, e)
  count-take p (x ∷ y ∷ xs) zero last l e = absurd (omega arith)
  count-take p (x ∷ xs) (suc n) last l e = omega (arith, count-take p xs n last (omega arith) e)

  get_elem?-take :
      (xs : List A) (n j : ℕ) (a : A)
      → get_elem? (take n xs) j ≡ some a
      → (get_elem? xs j ≡ some a) × (j < n)
  get_elem?-take xs zero j a e = cc
  get_elem?-take [] (suc n) j a e = cc
  get_elem?-take (x ∷ xs) (suc n) zero a e = (e, omega arith)
  get_elem?-take (x ∷ xs) (suc n) (suc j) a e =
      let (found, bound) = get_elem?-take xs n j a e in (found, omega (arith, bound))

  -- One item less is counted, if the item passes the test.
  pub count-drop_slot :
      (p : A → Bool) (xs : List A) (idx : ℕ) (x last : A)
      → get_elem? xs idx ≡ some x
      → get_elem? xs (length xs - 1) ≡ some last
      → count p (drop_slot xs idx last) + one (p x) ≡ count p xs
  count-drop_slot p xs idx x last found at_end = elim (Bool-cases (idx == length xs - 1)) [
    | inl e ↦
        let size = length xs - 1 in
        let at = (==_iff idx size).0 e in
        let x_last : x ≡ last = some_same (sym found ∙ ap (get_elem? xs) at ∙ at_end) in
        let bound = get_elem?_bounds xs idx x found in
        rw (e, x_last) (count-take p xs size last (omega (arith, bound)) at_end)
    | inr e ↦
        let size = length xs - 1 in
        let bound = get_elem?_bounds xs idx x found in
        let at_end' = get_elem?-set xs idx size last (not_equal idx size e) ∙ at_end in
        let taken =
          count-take p (set xs idx last) size last (length-set xs idx last ∙ omega (arith, bound))
            at_end' in
        rw (e) (omega (arith, taken, count-set p xs idx x last found))
  ]

  -- What is left: the last item at the index of the one that was dropped, and the others where they were.
  pub get_elem?-drop_slot :
      (xs : List A) (idx j : ℕ) (x last y : A)
      → get_elem? xs idx ≡ some x
      → get_elem? (drop_slot xs idx last) j ≡ some y
      → ((j ≡ idx) × (last ≡ y) × (j < length xs - 1))
        ⊎ ((get_elem? xs j ≡ some y) × (j < length xs - 1) × ((idx == j) ≡ false))
  get_elem?-drop_slot xs idx j x last y found e = elim (Bool-cases (idx == length xs - 1)) [
    | inl at ↦
        let size = length xs - 1 in
        let e' = rw (at) at e in
        let (found', bound) = get_elem?-take xs size j y e' in
        let last_one = (==_iff idx size).0 at in
        inr (found', bound, ne→not_== idx j (λ same. absurd (omega (arith, last_one, same, bound))))
    | inr at ↦
        let e' = rw (at) at e in
        let (found', bound) = get_elem?-take (set xs idx last) (length xs - 1) j y e' in
        elim (Bool-cases (idx == j)) [
          | inl here ↦
              let idx_j = (==_iff idx j).0 here in
              let stored = get_elem?-set_same xs idx x last found in
              inl (
                sym idx_j,
                some_same (sym stored ∙ ap (get_elem? (set xs idx last)) idx_j ∙ found'),
                bound,
              )
          | inr there ↦ elim (get_elem?-set_cases xs idx j last y found') [
            | inl (same, last_y) ↦ inl (same, last_y, bound)
            | inr before ↦ inr (before, bound, there)
          ]
        ]
  ]

  pub length-drop_slot :
      (xs : List A) (idx : ℕ) (x last : A)
      → get_elem? xs idx ≡ some x
      → length (drop_slot xs idx last) ≡ length xs - 1
  length-drop_slot xs idx x last found =
      let bound = get_elem?_bounds xs idx x found in
      elim (Bool-cases (idx == length xs - 1)) [
        | inl e ↦ rw (e) (omega (arith, length-take (length xs - 1) xs))
        | inr e ↦
            rw (e)
              (omega (arith, length-take (length xs - 1) (set xs idx last), length-set xs idx last))
      ]
