-- ===== src/Srv/Order/Selection.antt =====
-- What step 4 of `on_srv_answer` makes of the sorted records.
use ruli.Common.{
  ℕ, zero, suc, ◌+◌, ◌≤◌, ◌<◌, ◌≡◌, refl, ap, ◌∙◌, arith, Bool, true, false, ◌⊎◌, inl, inr, Option,
}
use ruli.Common.{
  some, List, [], ◌∷◌, ◌++◌, length, Run, done, append_assoc, append-nil, sym, length-append,
  le→not_ltb, ltb, Bool-cases, ltb→lt, All, not_ltb→le,
}
use native.Mathlib.Nat.{add-zero}
use mathlib.Core.Path.{subst}
use mathlib.Core.List.{reverse_aux, Perm, perm_middle, reverse, reverse_perm}
use mathlib.Core.List.Perm
use ruli.Srv.Order.{when_pushed, SrvRr, weight_sum, pick, list_push, select_from, select_by_weight}

-- The random numbers are in the range that is asked for.
abbrev pub InRange : (ℕ → ℕ → Run ℕ) → Type 0
InRange rand = (k max : ℕ) → (r : ℕ) × (rand k max ≡ done r) × (r ≤ max)

-- The sum of all weights.
abbrev pub total : List SrvRr → ℕ
total [] = 0
total (r ∷ rs) = r.weight + total rs

-- What the walk finds, and where: the weights before the record stay below `rnd`, and with its own they do not.
pub record Picked (rnd run_sum p : ℕ) (rs : List SrvRr) : Type 0 where
  pub before : List SrvRr
  pub chosen : SrvRr
  pub after : List SrvRr
  pub split : rs ≡ before ++ (chosen ∷ after)
  pub found : pick rnd run_sum rs ≡ done (chosen, before ++ after)
  pub in_group : All (λ d. d.priority ≡ p) before
  pub same : chosen.priority ≡ p
  pub reaches : rnd ≤ run_sum + total before + chosen.weight
  pub first : (before ≡ []) ⊎ (run_sum + total before < rnd)

weight_sum-here :
    (p : ℕ) (r : SrvRr) (rs : List SrvRr)
    → r.priority ≡ p
    → weight_sum p (r ∷ rs) ≡ r.weight + weight_sum p rs
unfolding weight_sum
weight_sum-here p r rs e = ground arith

weight_sum-there :
    (p : ℕ) (r : SrvRr) (rs : List SrvRr) → 0 < weight_sum p (r ∷ rs) → r.priority ≡ p
unfolding weight_sum
weight_sum-there p r rs h = ground arith

weight_sum-nil : (p : ℕ) → weight_sum p [] ≡ 0
unfolding weight_sum
weight_sum-nil p = refl

pub pick-here :
    (rnd run_sum : ℕ) (r : SrvRr) (rs : List SrvRr)
    → ltb (run_sum + r.weight) rnd ≡ false
    → pick rnd run_sum (r ∷ rs) ≡ done (r, rs)
unfolding pick
pick-here rnd run_sum r rs h = rw h

pick-on :
    (rnd run_sum : ℕ) (r : SrvRr) (rs : List SrvRr) {x : SrvRr} {rest : List SrvRr}
    → ltb (run_sum + r.weight) rnd ≡ true
    → pick rnd (run_sum + r.weight) rs ≡ done (x, rest)
    → pick rnd run_sum (r ∷ rs) ≡ done (x, r ∷ rest)
unfolding pick
pick-on rnd run_sum r rs h k = rw (h, k)

module _ (rnd p : ℕ) where
  stop :
      (run_sum : ℕ) (r : SrvRr) (rs : List SrvRr)
      → r.priority ≡ p
      → ltb (run_sum + r.weight) rnd ≡ false
      → Picked rnd run_sum p (r ∷ rs)
  stop run_sum r rs e b = record {
    before = [];
    chosen = r;
    after = rs;
    split = refl;
    found = pick-here rnd run_sum r rs b;
    in_group = tt;
    same = e;
    reaches = omega (arith, not_ltb→le (run_sum + r.weight) rnd b);
    first = inl refl;
  }

  go_on :
      (run_sum : ℕ) (r : SrvRr) (rs : List SrvRr)
      → r.priority ≡ p
      → ltb (run_sum + r.weight) rnd ≡ true
      → Picked rnd (run_sum + r.weight) p rs
      → Picked rnd run_sum p (r ∷ rs)
  go_on run_sum r rs e b rest = record {
    before = r ∷ rest.before;
    chosen = rest.chosen;
    after = rest.after;
    split = ap (◌∷◌ r) rest.split;
    found = pick-on rnd run_sum r rs b rest.found;
    in_group = (e, rest.in_group);
    same = rest.same;
    reaches = omega (arith, rest.reaches);
    first = inr (elim rest.first [
      | inl none_before ↦ omega (arith, ltb→lt (run_sum + r.weight) rnd b, ap total none_before)
      | inr above ↦ omega arith
    ]);
  }

  -- A number of at most the running sum and the weights of the priority with which a list begins picks
  -- from the list a record of that priority: the first at which the running sum reaches the number.
  pub pick-Picked :
      (run_sum : ℕ) (r : SrvRr) (rs : List SrvRr)
      → r.priority ≡ p
      → rnd ≤ run_sum + weight_sum p (r ∷ rs)
      → Picked rnd run_sum p (r ∷ rs)
  pick-Picked run_sum r [] e h = stop run_sum r [] e (
      le→not_ltb (run_sum + r.weight) rnd
        (omega (arith, weight_sum-here p r [] e, weight_sum-nil p)))
  pick-Picked run_sum r (s ∷ rs) e h = elim (Bool-cases (ltb (run_sum + r.weight) rnd)) [
    | inr b ↦ stop run_sum r (s ∷ rs) e b
    | inl b ↦
        let lt = ltb→lt (run_sum + r.weight) rnd b in
        let sum = weight_sum-here p r (s ∷ rs) e in
        let same : s.priority ≡ p = weight_sum-there p s rs (omega arith) in
        go_on run_sum r (s ∷ rs) e b (pick-Picked (run_sum + r.weight) s rs same (omega arith))
  ]

length-reverse_aux : (xs ys : List SrvRr) → length (reverse_aux xs ys) ≡ length xs + length ys
length-reverse_aux [] ys = omega arith
length-reverse_aux (x ∷ xs) ys = length-reverse_aux xs (x ∷ ys) ∙ omega arith

-- The priorities do not fall.
abbrev pub IsAscending : List SrvRr → Type 0
IsAscending [] = Unit
IsAscending (r ∷ rs) = All (λ d. r.priority ≤ d.priority) rs × IsAscending rs

All-remove {ℓ} :
    (P : SrvRr → Type ℓ) (b : List SrvRr) (x : SrvRr) (a : List SrvRr)
    → All P (b ++ (x ∷ a))
    → P x × All P (b ++ a)
All-remove P [] x a h = h
All-remove P (c ∷ b) x a h = let (px, rest) = All-remove P b x a h.1 in (px, (h.0, rest))

IsAscending-remove :
    (b : List SrvRr) (x : SrvRr) (a : List SrvRr)
    → IsAscending (b ++ (x ∷ a))
    → IsAscending (b ++ a)
IsAscending-remove [] x a h = h.1
IsAscending-remove (c ∷ b) x a h =
    ((All-remove (λ d. c.priority ≤ d.priority) b x a h.0).1, IsAscending-remove b x a h.1)

-- The first priority is the least.
least :
    (r : SrvRr) (rs : List SrvRr)
    → IsAscending (r ∷ rs)
    → All (λ d. r.priority ≤ d.priority) (r ∷ rs)
least r rs h = (omega arith, h.0)

module _ (mem : ℕ → Bool) (enough : (n : ℕ) → mem n ≡ true) (rand : ℕ → ℕ → Run ℕ)
    (in_range : InRange rand) where
  push-some : (l : List SrvRr) (r : SrvRr) → list_push mem l r ≡ some (l ++ (r ∷ []))
  unfolding list_push
  push-some l r = rw (enough (length l))

  -- What the loop appends to `dst`.
  pub record Selects (rs dst : List SrvRr) (result : Run (Option (List SrvRr))) : Type 0 where
    pub new : List SrvRr
    pub returns : result ≡ done (some (dst ++ new))
    pub same_records : Perm new rs
    pub ascending : IsAscending new
    pub bounded : (q : ℕ) → All (λ d. q ≤ d.priority) rs → All (λ d. q ≤ d.priority) new

  pub select_step :
      (n rnd : ℕ) (r : SrvRr) (rs dst : List SrvRr) (x : SrvRr) (rest : List SrvRr)
      → rand (length (r ∷ rs)) (weight_sum r.priority (r ∷ rs)) ≡ done rnd
      → pick rnd 0 (r ∷ rs) ≡ done (x, rest)
      → select_from mem rand (suc n) (r ∷ rs) dst ≡ select_from mem rand n rest (dst ++ (x ∷ []))
  unfolding select_from when_pushed
  select_step n rnd r rs dst x rest e k = rw (e, k, push-some dst x)

  -- One round, given what the later rounds do.
  round-Selects :
      (n rnd : ℕ) (r : SrvRr) (rs dst : List SrvRr)
      → rand (length (r ∷ rs)) (weight_sum r.priority (r ∷ rs)) ≡ done rnd
      → IsAscending (r ∷ rs)
      → (k : Picked rnd 0 r.priority (r ∷ rs))
      → Selects
          (k.before ++ k.after)
          (dst ++ (k.chosen ∷ []))
          (select_from mem rand n (k.before ++ k.after) (dst ++ (k.chosen ∷ [])))
      → Selects (r ∷ rs) dst (select_from mem rand (suc n) (r ∷ rs) dst)
  round-Selects n rnd r rs dst e s k ih = record {
    new = k.chosen ∷ ih.new;
    returns =
        select_step n rnd r rs dst k.chosen (k.before ++ k.after) e k.found
        ∙ ih.returns
        ∙ ap (λ o. done (some o)) (append_assoc dst (k.chosen ∷ []) ih.new);
    same_records = rw k.split (
        Perm.trans (Perm.cons k.chosen ih.same_records) (Perm.symm (perm_middle k.before k.after)));
    ascending = (
      ih.bounded k.chosen.priority (
          rw k.same
            (All-remove (λ d. r.priority ≤ d.priority) k.before k.chosen k.after
              (subst (λ l. All (λ d. r.priority ≤ d.priority) l) k.split (least r rs s))).1),
      ih.ascending,
    );
    bounded = λ q h.
        let (here, rest) =
          All-remove (λ d. q ≤ d.priority) k.before k.chosen k.after
            (subst (λ l. All (λ d. q ≤ d.priority) l) k.split h) in
        (here, ih.bounded q rest);
  }

  pub select_from-Selects :
      (n : ℕ) (rs dst : List SrvRr)
      → length rs ≡ n
      → IsAscending rs
      → Selects rs dst (select_from mem rand n rs dst)
  unfolding select_from
  select_from-Selects zero [] dst l s = record {
    new = [];
    returns = ap (λ o. done (some o)) (sym (append-nil dst));
    same_records = Perm.refl [];
    ascending = tt;
    bounded = λ q h. tt;
  }
  select_from-Selects zero (r ∷ rs) dst l s = absurd (omega arith)
  select_from-Selects (suc n) [] dst l s = absurd (omega arith)
  select_from-Selects (suc n) (r ∷ rs) dst l s =
      let (rnd, e, le) = in_range (length (r ∷ rs)) (weight_sum r.priority (r ∷ rs)) in
      let k = pick-Picked rnd r.priority 0 r rs refl (omega arith) in
      round-Selects n rnd r rs dst e s k (
        select_from-Selects n (k.before ++ k.after) (dst ++ (k.chosen ∷ []))
          (omega (
            arith,
            ap length k.split,
            length-append k.before (k.chosen ∷ k.after),
            length-append k.before k.after,
          ))
          (IsAscending-remove k.before k.chosen k.after (subst IsAscending k.split s)))

  -- Step 4 ends with every record of the sorted list exactly once, in an order in which the priorities
  -- do not fall, if the list is in the order of priorities that do not rise, there is enough memory and
  -- the random numbers are in range.
  pub select_by_weight-Selects :
      (src : List SrvRr)
      → IsAscending (reverse src)
      → (out : List SrvRr) × (select_by_weight mem rand src ≡ done (some out))
        × Perm out src
        × IsAscending out
  unfolding select_by_weight
  select_by_weight-Selects src s =
      let k =
        select_from-Selects (length src) (reverse src) []
          (length-reverse_aux src [] ∙ add-zero (length src)) s in
      (k.new, k.returns, Perm.trans k.same_records (reverse_perm src), k.ascending)
