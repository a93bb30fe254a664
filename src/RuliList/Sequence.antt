-- ===== src/RuliList/Sequence.antt =====
-- The array as a sequence.
use ruli.Common.{ℕ, zero, suc, ◌+◌, ◌-◌, ◌*◌, ◌≤◌, ◌<◌, ◌≡◌, refl, sym, ap, ◌∙◌, ◌⊎◌, ◌%◌, ◌^◌}
use ruli.Common.{
  ◌&&◌, ltb, not, not_leb→lt, abort, Run, ◌>>=◌, arith, Bool, List, [], ◌∷◌, ◌++◌, append_assoc,
  append-nil, length,
}
use ruli.Common.{
  set, leb, if◌then◌else◌, done, Option, none, some, length-append, read-append, lt→ltb, take_exact,
  Bool-cases, inl, inr,
}
use ruli.RuliList.{
  Result, ok, malloc_failed, at, list_grow, reserve, append_item, and_then, ruli_list_push, move_up,
  store_at, ruli_list_insert_at, move_down, ruli_list_shift_at, ruli_list_pop,
}

-- The capacity after room was made for one more item, or `none` if there is no memory for it. A capacity of 2^30 or more
-- cannot be doubled: the result is no positive `int`, and the assertion fails.
abbrev pub capacity_for : (ℕ → Bool) → ℕ → ℕ → Run (Option ℕ)
capacity_for room cap size =
    if leb cap size
    then (if leb (2 ^ 30) cap
        then abort
        else if room (cap * 2)
        then done (some (cap * 2))
        else done none)
    else done (some cap)

-- The result with the given items in an array of such a capacity.
abbrev pub stored {ℓ} : {A : Type ℓ} → List A → Option ℕ → Run (Result A)
stored items none = done malloc_failed
stored items (some cap) = done (ok (at items cap))

capacity_for-cases :
    (room : ℕ → Bool) (slots size : ℕ)
    → 0 < slots
    → size ≤ slots
    → (capacity_for room slots size ≡ abort)
      ⊎ ((capacity_for room slots size ≡ done none)
          ⊎ ((c : ℕ) × (capacity_for room slots size ≡ done (some c)) × (size < c)))
capacity_for-cases room slots size h k = elim (Bool-cases (leb slots size)) [
  | inr e ↦ rw e (inr (inr (slots, refl, not_leb→lt slots size e)))
  | inl e ↦ elim (Bool-cases (leb (2 ^ 30) slots)) [
    | inl big ↦ rw (e, big) (inl refl)
    | inr small ↦ elim (Bool-cases (room (slots * 2))) [
      | inl has ↦ rw (e, small, has) (inr (inr (slots * 2, refl, omega (arith, h, k))))
      | inr full ↦ rw (e, small, full) (inr (inl refl))
    ]
  ]
]

grown_size :
    (cap : ℕ)
    → 0 < cap
    → cap < 2 ^ 31
    → (ltb 0 (cap * 2 % 2 ^ 32) && ltb (cap * 2 % 2 ^ 32) (2 ^ 31)) ≡ not (leb (2 ^ 30) cap)
grown_size cap h k =
    let same : cap * 2 % 2 ^ 32 ≡ cap * 2 = omega (arith, k) in rw same (ground (arith, h, k))

set_exact {ℓ} :
    {A : Type ℓ} (xs : List A) (y : A) (ys : List A) (n : ℕ) (v : A)
    → n ≡ length xs
    → set (xs ++ (y ∷ ys)) n v ≡ xs ++ (v ∷ ys)
set_exact [] y ys zero v e = refl
set_exact [] y ys (suc n) v e = absurd (omega arith)
set_exact (x ∷ xs) y ys zero v e = absurd (omega arith)
set_exact (x ∷ xs) y ys (suc n) v e = ap (◌∷◌ x) (set_exact xs y ys n v (omega arith))

last-cases {ℓ} :
    {A : Type ℓ} (xs : List A) (n : ℕ)
    → length xs ≡ suc n
    → (ys : List A) × (y : A) × (xs ≡ ys ++ (y ∷ [])) × (length ys ≡ n)
last-cases [] n e = absurd (omega arith)
last-cases (x ∷ []) n e = ([], x, refl, omega arith)
last-cases (x ∷ y ∷ xs) zero e = absurd (omega arith)
last-cases (x ∷ y ∷ xs) (suc n) e =
    let (ys, z, f, g) = last-cases (y ∷ xs) n (omega arith) in
    (x ∷ ys, z, ap (◌∷◌ x) f, omega arith)

minus_one : (a b n : ℕ) → a ≡ b + suc n → a - 1 ≡ b + n
minus_one a b n e = omega arith

module _ {ℓ} {A : Type ℓ} where
  one_more : (xs : List A) (y : A) (zs : List A) → (xs ++ (y ∷ [])) ++ zs ≡ xs ++ (y ∷ zs)
  one_more xs y zs = simp append_assoc

  set_second :
      (xs : List A) (y z : A) (zs : List A) (n : ℕ) (v : A)
      → n ≡ suc (length xs)
      → set (xs ++ (y ∷ z ∷ zs)) n v ≡ xs ++ (y ∷ v ∷ zs)
  set_second [] y z zs (suc zero) v e = refl
  set_second [] y z zs (suc (suc n)) v e = absurd (omega arith)
  set_second [] y z zs zero v e = absurd (omega arith)
  set_second (x ∷ xs) y z zs zero v e = absurd (omega arith)
  set_second (x ∷ xs) y z zs (suc n) v e = ap (◌∷◌ x) (set_second xs y z zs n v (omega arith))

  pub move_down-items :
      (xs : List A) (x : A) (zs : List A) (to : ℕ)
      → to ≡ length xs
      → (w : A) × (move_down (length zs) to (xs ++ (x ∷ zs)) ≡ done ((xs ++ zs) ++ (w ∷ [])))
  unfolding move_down
  move_down-items xs x [] to e = (x, simp append-nil)
  move_down-items xs x (z ∷ zs) to e =
      let p = xs ++ (z ∷ []) in
      let (w, r) = move_down-items p z zs (suc to) (omega (arith, length-append xs (z ∷ []))) in
      (
        w,
        rw (read-append xs (x ∷ z ∷ zs) (suc to) 1 (omega arith), set_exact xs x (z ∷ zs) to z e)
            (ap (move_down (length zs) (suc to)) (sym (one_more xs z (z ∷ zs)))
              ∙ r
              ∙ ap (λ l. done (l ++ (w ∷ []))) (one_more xs z zs)),
      )

  move_up_step :
      (n : ℕ) (xs pre : List A) (y z : A) (zs slots : List A) (to : ℕ)
      → to ≡ length xs + suc n
      → length pre ≡ n
      → move_up n (to - 1) ((xs ++ pre) ++ (y ∷ y ∷ zs)) ≡ done slots
      → move_up (suc n) to ((xs ++ (pre ++ (y ∷ []))) ++ (z ∷ zs)) ≡ done slots
  unfolding move_up
  move_up_step n xs pre y z zs slots to f g r =
      let p = xs ++ pre in
      rw
        (
          sym (append_assoc xs pre (y ∷ [])),
          one_more p y (z ∷ zs),
          read-append p (y ∷ z ∷ zs) (to - 1) 0 (omega (arith, length-append xs pre)),
          set_second p y z zs to y (omega (arith, length-append xs pre)),
        )
        r

  pub move_up-items :
      (n : ℕ) (xs ys : List A) (z : A) (zs : List A) (item : A) (to : ℕ)
      → length ys ≡ n
      → to ≡ length xs + n
      → (slots : List A) × (move_up n to ((xs ++ ys) ++ (z ∷ zs)) ≡ done slots)
        × (set slots (length xs) item ≡ xs ++ (item ∷ (ys ++ zs)))
  unfolding move_up
  move_up-items zero xs [] z zs item to e f =
      ((xs ++ []) ++ (z ∷ zs), refl, rw (append-nil xs) (set_exact xs z zs (length xs) item refl))
  move_up-items zero xs (y ∷ ys) z zs item to e f = absurd (omega arith)
  move_up-items (suc n) xs ys z zs item to e f =
      let (pre, y, h, g) = last-cases ys n e in
      let (slots, r, s) =
        move_up-items n xs pre y (y ∷ zs) item (to - 1) g (minus_one to (length xs) n f) in
      (
        slots,
        ap (λ l. move_up (suc n) to ((xs ++ l) ++ (z ∷ zs))) h
            ∙ move_up_step n xs pre y z zs slots to f g r,
        s ∙ ap (λ l. xs ++ (item ∷ l)) (sym (one_more pre y zs) ∙ ap (λ l. l ++ zs) (sym h)),
      )

  reserve-stored :
      (room : ℕ → Bool) (items : List A) (cap : ℕ)
      → 0 < cap
      → cap < 2 ^ 31
      → reserve room (at items cap) ≡ (capacity_for room cap (length items) >>= stored items)
  unfolding reserve list_grow
  reserve-stored room items cap h k = elim (Bool-cases (leb cap (length items))) [
    | inr e ↦ rw e refl
    | inl e ↦ elim (Bool-cases (leb (2 ^ 30) cap)) [
      | inl big ↦ rw (e, grown_size cap h k, big) refl
      | inr small ↦
          let same : cap * 2 % 2 ^ 32 ≡ cap * 2 = omega (arith, k) in
          rw (e, grown_size cap h k, small, same)
            (elim (Bool-cases (room (cap * 2))) [ inl f ↦ rw f refl | inr f ↦ rw f refl ])
    ]
  ]

  -- `ruli_list_push` puts the item behind the others. If the array is full, its capacity is doubled, or
  -- nothing is pushed if there is no memory for that; from a capacity of 2^30 on the doubled one is no
  -- positive `int`, and an assertion fails. The capacity is a positive `int`, and it is not below the
  -- size.
  pub ruli_list_push-items :
      (room : ℕ → Bool) (items : List A) (cap : ℕ) (item : A)
      → 0 < cap
      → cap < 2 ^ 31
      → length items ≤ cap
      → ruli_list_push room (at items cap) item
        ≡ (capacity_for room cap (length items) >>= stored (items ++ (item ∷ [])))
  unfolding ruli_list_push append_item and_then
  ruli_list_push-items room items cap item h i k =
      let reserved = reserve-stored room items cap h i in
      elim (capacity_for-cases room cap (length items) h k) [
        | inl e ↦ rw (reserved, e) refl
        | inr (inl e) ↦ rw (reserved, e) refl
        | inr (inr (c, e, more)) ↦ rw (reserved, e, lt→ltb (length items) c more) refl
      ]

  store_at-items :
      (xs : List A) (y : A) (ys : List A) (cap : ℕ) (item : A)
      → length (xs ++ (y ∷ ys)) < cap
      → store_at (at (xs ++ (y ∷ ys)) cap) (length xs) item ≡ done (at (xs ++ (item ∷ y ∷ ys)) cap)
  unfolding store_at
  store_at-items xs y ys cap item h =
      let items = xs ++ (y ∷ ys) in
      let l = length-append xs (y ∷ ys) in
      let (slots, r, s) =
        move_up-items (length items - length xs) xs (y ∷ ys) item [] item (length items)
          (omega (arith, l)) (omega (arith, l)) in
      rw (lt→ltb (length items) cap h, r, s, append-nil ys) refl

  -- `ruli_list_insert_at` puts the item in front of the one at its index, which must be there, and keeps
  -- the order of the others. If the array is full, its capacity is doubled, or nothing is inserted if
  -- there is no memory for that; from a capacity of 2^30 on the doubled one is no positive `int`, and an
  -- assertion fails. The capacity is a positive `int`, and it is not below the size.
  pub ruli_list_insert_at-items :
      (room : ℕ → Bool) (xs : List A) (y : A) (ys : List A) (cap : ℕ) (item : A)
      → 0 < cap
      → cap < 2 ^ 31
      → length (xs ++ (y ∷ ys)) ≤ cap
      → ruli_list_insert_at room (at (xs ++ (y ∷ ys)) cap) (length xs) item
        ≡ (capacity_for room cap (length (xs ++ (y ∷ ys))) >>= stored (xs ++ (item ∷ y ∷ ys)))
  unfolding ruli_list_insert_at and_then
  ruli_list_insert_at-items room xs y ys cap item h i k =
      let items = xs ++ (y ∷ ys) in
      let inside = lt→ltb (length xs) (length items) (omega (arith, length-append xs (y ∷ ys))) in
      let reserved = reserve-stored room items cap h i in
      elim (capacity_for-cases room cap (length items) h k) [
        | inl e ↦ rw (inside, reserved, e) refl
        | inr (inl e) ↦ rw (inside, reserved, e) refl
        | inr (inr (c, e, more)) ↦ rw (inside, reserved, e, store_at-items xs y ys c item more) refl
      ]

  -- `ruli_list_shift_at` takes the item at its index out and keeps the order of the others.
  pub ruli_list_shift_at-items :
      (xs : List A) (x : A) (zs : List A) (cap : ℕ)
      → ruli_list_shift_at (at (xs ++ (x ∷ zs)) cap) (length xs) ≡ done (x, at (xs ++ zs) cap)
  unfolding ruli_list_shift_at
  ruli_list_shift_at-items xs x zs cap =
      let items = xs ++ (x ∷ zs) in
      let l = length-append xs (x ∷ zs) in
      let rest : length items - suc (length xs) ≡ length zs = omega (arith, l) in
      let inside = lt→ltb (length xs) (length items) (omega (arith, l)) in
      let (w, r) = move_down-items xs x zs (length xs) refl in
      rw
        (
          inside,
          read-append xs (x ∷ zs) (length xs) 0 (omega arith),
          rest,
          r,
          take_exact (xs ++ zs) (w ∷ []) (length items - 1) (omega (arith, l, length-append xs zs)),
        )
        refl

  -- `ruli_list_pop` takes the last item out.
  pub ruli_list_pop-items :
      (xs : List A) (x : A) (cap : ℕ)
      → ruli_list_pop (at (xs ++ (x ∷ [])) cap) ≡ done (x, at xs cap)
  unfolding ruli_list_pop
  ruli_list_pop-items xs x cap =
      let items = xs ++ (x ∷ []) in
      let l = length-append xs (x ∷ []) in
      rw
        (
          lt→ltb 0 (length items) (omega (arith, l)),
          read-append xs (x ∷ []) (length items - 1) 0 (omega (arith, l)),
          take_exact xs (x ∷ []) (length items - 1) (omega (arith, l)),
        )
        refl
