-- ===== src/Srv/Order/Late.antt =====
-- Which records step 3 of `on_srv_answer` puts into the list twice.
use ruli.Common.{
  ℕ, suc, ◌+◌, ◌<◌, ◌≡◌, ◌≢◌, refl, ap, sym, ◌∙◌, arith, Bool, true, false, inl, inr, none, some,
  List, [], ◌∷◌, ◌++◌, take, drop, take-append-drop, Bool-cases, All, ltb, leb, lt→ltb, ltb→lt,
  le→leb, lt→not_leb, not_ltb→le, ◌⊎◌, if◌then◌else◌, ne→not_==, count, count-append, one,
}
use ruli.Srv.Order.{SrvRr, next_slot, find_slot, sort_from, sort_by_priority}
use ruli.Srv.Order.Duplicates.{sort_one-tail, sort_one-inserted}

-- Whether a record comes before or with `r` by its priority.
abbrev pub not_behind : SrvRr → SrvRr → Bool
not_behind r d = leb d.priority r.priority

-- The records that come after one of no larger priority; `seen` are those that came before.
abbrev pub late : List SrvRr → List SrvRr → List SrvRr
late seen [] = []
late seen (r ∷ src) =
    if ltb 0 (count (not_behind r) seen) then r ∷ late (r ∷ seen) src else late (r ∷ seen) src

-- A record of a weight that is not zero has a slot in a list exactly if one of its records is not behind it.
slots :
    (r : SrvRr)
    → r.weight ≢ 0
    → (dst : List SrvRr)
    → ((find_slot r dst ≡ none) × (count (not_behind r) dst ≡ 0))
      ⊎ ((i : ℕ) × (find_slot r dst ≡ some i) × (0 < count (not_behind r) dst))
unfolding find_slot next_slot
slots r weighs [] = inl (refl, refl)
slots r weighs (d ∷ dst) = elim (Bool-cases (ltb r.priority d.priority)) [
  | inl e ↦
      let above = lt→not_leb d.priority r.priority (ltb→lt r.priority d.priority e) in
      elim (slots r weighs dst) [
        | inl (no_slot, none_seen) ↦ inl (rw (e, no_slot) refl, rw above (omega (arith, none_seen)))
        | inr (i, slot, some_seen) ↦
            inr (suc i, rw (e, slot) refl, rw above (omega (arith, some_seen)))
      ]
  | inr e ↦
      let below = le→leb d.priority r.priority (not_ltb→le r.priority d.priority e) in
      inr (0, rw (e, ne→not_== r.weight 0 weighs) refl, rw below (omega arith))
]

-- Two lists that have records not behind `r` for the same `r`.
abbrev SameSlots : List SrvRr → List SrvRr → Type 0
SameSlots dst seen =
    (r : SrvRr) → ltb 0 (count (not_behind r) dst) ≡ ltb 0 (count (not_behind r) seen)

-- How often a test holds in the list with the record inserted and pushed.
count-inserted :
    (p : SrvRr → Bool) (dst : List SrvRr) (i : ℕ) (r : SrvRr)
    → count p ((take i dst ++ (r ∷ drop i dst)) ++ (r ∷ [])) ≡ count p dst + one (p r) + one (p r)
count-inserted p dst i r = omega (
  arith,
  count-append p (take i dst ++ (r ∷ drop i dst)) (r ∷ []),
  count-append p (take i dst) (r ∷ drop i dst),
  count-append p (take i dst) (drop i dst),
  ap (count p) (take-append-drop i dst),
)

same_pushed :
    (seen dst : List SrvRr) (r : SrvRr)
    → SameSlots dst seen
    → SameSlots (dst ++ (r ∷ [])) (r ∷ seen)
same_pushed seen dst r same x = ground (arith, same x, count-append (not_behind x) dst (r ∷ []))

same_inserted :
    (seen dst : List SrvRr) (i : ℕ) (r : SrvRr)
    → SameSlots dst seen
    → SameSlots ((take i dst ++ (r ∷ drop i dst)) ++ (r ∷ [])) (r ∷ seen)
same_inserted seen dst i r same x = ground (arith, same x, count-inserted (not_behind x) dst i r)

module _ (mem : ℕ → Bool) (enough : (n : ℕ) → mem n ≡ true) (p : SrvRr → Bool) where
  sort_from-late :
      (seen dst src : List SrvRr)
      → All (λ r. r.weight ≢ 0) src
      → SameSlots dst seen
      → (out : List SrvRr) × (sort_from mem dst src ≡ some out)
        × (count p out ≡ count p dst + count p src + count p (late seen src))
  unfolding sort_from
  sort_from-late seen dst [] weigh same = (dst, refl, omega arith)
  sort_from-late seen dst (r ∷ src) weigh same = elim (slots r weigh.0 dst) [
    | inl (no_slot, none_seen) ↦
        let early : ltb 0 (count (not_behind r) seen) ≡ false = sym (same r) ∙ rw none_seen refl in
        let (out, e, counted) =
          sort_from-late (r ∷ seen) (dst ++ (r ∷ [])) src weigh.1 (same_pushed seen dst r same) in
        (
          out,
          rw (sort_one-tail mem enough dst r no_slot, sort_from) e,
          rw early (omega (arith, counted, count-append p dst (r ∷ []))),
        )
    | inr (i, slot, some_seen) ↦
        let behind : ltb 0 (count (not_behind r) seen) ≡ true =
          sym (same r) ∙ lt→ltb 0 (count (not_behind r) dst) some_seen in
        let twice = (take i dst ++ (r ∷ drop i dst)) ++ (r ∷ []) in
        let (out, e, counted) =
          sort_from-late (r ∷ seen) twice src weigh.1 (same_inserted seen dst i r same) in
        (
          out,
          rw (sort_one-inserted mem enough dst r i slot, sort_from) e,
          rw behind (omega (arith, counted, count-inserted p dst i r)),
        )
  ]

  -- Where there is enough memory, of a list of records whose weights are not zero: step 3 has for each
  -- record one reference, and a second one exactly if a record of the same or a smaller priority came
  -- before it; so whatever is counted among the references, its number is that among the records and
  -- among those late ones together.
  pub sort_by_priority-late :
      (src : List SrvRr)
      → All (λ r. r.weight ≢ 0) src
      → (out : List SrvRr) × (sort_by_priority mem src ≡ some out)
        × (count p out ≡ count p src + count p (late [] src))
  unfolding sort_by_priority
  sort_by_priority-late src weigh =
      let (out, e, counted) = sort_from-late [] [] src weigh (λ r. refl) in
      (out, e, omega (arith, counted))
