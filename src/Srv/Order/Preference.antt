-- ===== src/Srv/Order/Preference.antt =====
-- Steps 3 and 4 together: which record the client is given first.
use ruli.Common.{ℕ, ◌+◌, ◌≤◌, ◌<◌, ◌≡◌, refl, ◌∙◌, arith, Bool, true}
use ruli.Common.{inr, some, List, [], ◌∷◌, Run, done, le→not_ltb, All}
use mathlib.Core.List.{Perm, reverse_aux}
use ruli.Srv.Order.{SrvRr, weight_sum, sort_by_priority, select_by_weight}
use ruli.Srv.Order.Duplicates.{
  IsDescending, sort_by_priority-descending, sort_by_priority-duplicates,
}
use ruli.Srv.Order.Selection.{
  InRange, IsAscending, select_by_weight-Selects, select_step, select_from-Selects, pick-here,
}

IsAscending-reverse_aux :
    (xs ys : List SrvRr)
    → IsDescending xs
    → IsAscending ys
    → All (λ d. All (λ e. d.priority ≤ e.priority) ys) xs
    → IsAscending (reverse_aux xs ys)
IsAscending-reverse_aux [] ys d a h = a
IsAscending-reverse_aux (x ∷ xs) ys d a h =
    IsAscending-reverse_aux xs (x ∷ ys) d.1 (h.0, a) (below x xs ys d.0 h.1)
  where
    below :
        (x : SrvRr) (xs ys : List SrvRr)
        → All (λ d. d.priority < x.priority) xs
        → All (λ d. All (λ e. d.priority ≤ e.priority) ys) xs
        → All (λ d. All (λ e. d.priority ≤ e.priority) (x ∷ ys)) xs
    below x [] ys p q = tt
    below x (z ∷ zs) ys p q = ((omega (arith, p.0), q.0), below x zs ys p.1 q.1)

none_yet :
    (xs : List SrvRr) → All (λ (d : SrvRr). All (λ (e : SrvRr). d.priority ≤ e.priority) []) xs
none_yet [] = tt
none_yet (x ∷ xs) = (tt, none_yet xs)

module _ (mem : ℕ → Bool) (enough : (n : ℕ) → mem n ≡ true) (rand : ℕ → ℕ → Run ℕ)
    (in_range : InRange rand) where
  -- Where there is enough memory and the random numbers are in range: records that come with strictly
  -- falling priorities are given to the client once each, in an order in which the priorities do not
  -- fall.
  pub order_descending :
      (src : List SrvRr)
      → IsDescending src
      → (out : List SrvRr) × (sort_by_priority mem src ≡ some src)
        × (select_by_weight mem rand src ≡ done (some out))
        × Perm out src
        × IsAscending out
  order_descending src d =
      let (out, e, p, a) =
        select_by_weight-Selects mem enough rand in_range src
          (IsAscending-reverse_aux src [] d tt (none_yet src)) in
      (out, sort_by_priority-descending mem enough src d, e, p, a)

  head_alone :
      (r s : SrvRr) → r.priority < s.priority → weight_sum s.priority (s ∷ r ∷ s ∷ []) ≡ s.weight
  unfolding weight_sum
  head_alone r s h = ground arith

  -- Where there is enough memory and the random numbers are in range: of two records that come in the
  -- order of their priorities, the client is given the less preferred one first, whatever the random
  -- numbers are; two more references follow, one to each record.
  pub order_inverted :
      (r s : SrvRr)
      → r.priority < s.priority
      → (l more : List SrvRr) × (sort_by_priority mem (r ∷ s ∷ []) ≡ some l)
        × (select_by_weight mem rand l ≡ done (some (s ∷ more)))
        × Perm more (r ∷ s ∷ [])
  unfolding select_by_weight
  order_inverted r s h =
      let (rnd, e, le) = in_range 3 (weight_sum s.priority (s ∷ r ∷ s ∷ [])) in
      let small : rnd ≤ s.weight = omega (arith, head_alone r s h) in
      let found = pick-here rnd 0 s (r ∷ s ∷ []) (le→not_ltb (0 + s.weight) rnd (omega arith)) in
      let rest =
        select_from-Selects mem enough rand in_range 2 (r ∷ s ∷ []) (s ∷ []) refl
          ((omega arith, tt), (tt, tt)) in
      (
        s ∷ r ∷ s ∷ [],
        rest.new,
        sort_by_priority-duplicates mem enough r s (omega arith) (inr (omega arith)),
        select_step mem enough rand in_range 2 rnd s (r ∷ s ∷ []) [] s (r ∷ s ∷ []) e found
            ∙ rest.returns,
        rest.same_records,
      )
