-- ===== src/Srv/Order/Duplicates.antt =====
-- What step 3 of `on_srv_answer` does to the records.
use ruli.Common.{ℕ, ◌≤◌, ◌<◌, ◌≡◌, ◌≢◌, refl, ap, ◌∙◌, arith, Bool, true, ◌⊎◌, none, some}
use ruli.Common.{
  List, [], ◌∷◌, ◌++◌, length, take, drop, append_assoc, lt→ltb, All, append-nil, sym, All-append,
}
use ruli.Srv.Order.{
  SrvRr, same_priority, next_slot, find_slot, list_push, list_insert_at, insert_slot, sort_one,
  sort_from, sort_by_priority,
}

-- Each record has a smaller priority than the one before it.
abbrev pub IsDescending : List SrvRr → Type 0
IsDescending [] = Unit
IsDescending (r ∷ rs) = All (λ d. d.priority < r.priority) rs × IsDescending rs

-- Every priority of `dst` is above those of `src`.
abbrev Above : List SrvRr → List SrvRr → Type 0
Above dst src = All (λ r. All (λ d. r.priority < d.priority) dst) src

behind-All :
    (dst : List SrvRr) (r : SrvRr) (src : List SrvRr)
    → All (λ d. d.priority < r.priority) src
    → Above dst src
    → Above (dst ++ (r ∷ [])) src
behind-All dst r [] below h = tt
behind-All dst r (x ∷ src) below h = (
  All-append (λ d. x.priority < d.priority) dst (r ∷ []) h.0 (below.0, tt),
  behind-All dst r src below.1 h.1,
)

behind_none : (src : List SrvRr) → Above [] src
behind_none [] = tt
behind_none (x ∷ src) = (tt, behind_none src)

module _ (mem : ℕ → Bool) (enough : (n : ℕ) → mem n ≡ true) where
  push-some : (l : List SrvRr) (r : SrvRr) → list_push mem l r ≡ some (l ++ (r ∷ []))
  unfolding list_push
  push-some l r = rw (enough (length l))

  insert-some :
      (l : List SrvRr) (i : ℕ) (r : SrvRr)
      → list_insert_at mem l i r ≡ some (take i l ++ (r ∷ drop i l))
  unfolding list_insert_at
  insert-some l i r = rw (enough (length l))

  -- A record that is not inserted is pushed at the tail; one that is inserted is pushed as well.
  pub sort_one-tail :
      (dst : List SrvRr) (r : SrvRr)
      → find_slot r dst ≡ none
      → sort_one mem dst r ≡ some (dst ++ (r ∷ []))
  unfolding sort_one insert_slot
  sort_one-tail dst r h = rw (h, sort_one, insert_slot, push-some dst r)

  pub sort_one-inserted :
      (dst : List SrvRr) (r : SrvRr) (i : ℕ)
      → find_slot r dst ≡ some i
      → sort_one mem dst r ≡ some ((take i dst ++ (r ∷ drop i dst)) ++ (r ∷ []))
  unfolding sort_one insert_slot
  sort_one-inserted dst r i h =
      rw (
        h,
        sort_one,
        insert_slot,
        insert-some dst i r,
        push-some (take i dst ++ (r ∷ drop i dst)) r,
      )

  no_slot :
      (r : SrvRr) (dst : List SrvRr)
      → All (λ d. r.priority < d.priority) dst
      → find_slot r dst ≡ none
  unfolding find_slot next_slot
  no_slot r [] h = refl
  no_slot r (d ∷ ds) h = rw (lt→ltb r.priority d.priority h.0, no_slot r ds h.1)

  -- `src` goes behind `dst` where every priority of `dst` is larger than those of `src`.
  sort_from-descending :
      (dst src : List SrvRr)
      → IsDescending src
      → All (λ r. All (λ d. r.priority < d.priority) dst) src
      → sort_from mem dst src ≡ some (dst ++ src)
  unfolding sort_from
  sort_from-descending dst [] s h = ap some (sym (append-nil dst))
  sort_from-descending dst (r ∷ src) s h =
      rw (sort_one-tail dst r (no_slot r dst h.0), sort_from)
        (sort_from-descending (dst ++ (r ∷ [])) src s.1 (behind-All dst r src s.0 h.1)
          ∙ ap some (append_assoc dst (r ∷ []) src))

  -- Step 3 leaves records as they are that come with strictly falling priorities.
  pub sort_by_priority-descending :
      (src : List SrvRr) → IsDescending src → sort_by_priority mem src ≡ some src
  unfolding sort_by_priority
  sort_by_priority-descending src h = sort_from-descending [] src h (behind_none src)

  -- Where there is enough memory, of a list of two records: the second one is put into the sorted list
  -- twice, in front of the first and at the end, if its priority is not below that of the first, and its
  -- weight is not zero or its priority differs.
  pub sort_by_priority-duplicates :
      (r s : SrvRr)
      → r.priority ≤ s.priority
      → (s.weight ≢ 0) ⊎ (s.priority ≢ r.priority)
      → sort_by_priority mem (r ∷ s ∷ []) ≡ some (s ∷ r ∷ s ∷ [])
  unfolding sort_by_priority sort_from
  sort_by_priority-duplicates r s le h =
      rw (sort_one-tail [] r refl_slot, sort_from, sort_one-inserted (r ∷ []) s 0 front)
    where
      refl_slot : find_slot r [] ≡ none
      refl_slot = unfold find_slot in refl

      front : find_slot s (r ∷ []) ≡ some 0
      front = unfold find_slot same_priority next_slot in ground arith
