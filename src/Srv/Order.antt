-- ===== src/Srv/Order.antt =====
-- Steps 3 and 4 of `on_srv_answer`: the records in the order of their priorities, and the choice
-- among those of one priority by their weights.
--
-- The lists hold references to records; a list of references is a list of records. `mem` tells
-- whether a list of the given size has memory for one more item.
pub mod Duplicates
pub mod Late
pub mod Selection
pub mod Preference
mod Tests
use ruli.Common.{ℕ, zero, suc, ◌+◌, Bool, Option, none, some, List, [], ◌∷◌, ◌++◌}
use ruli.Common.{length, take, drop, ltb, ◌==◌, if◌then◌else◌, Run, done, abort, no_fuel, ◌>>=◌}
use mathlib.Core.List.{reverse}

-- `ti_srv_rr_t`, with the fields of its `ruli_srv_rdata_t`.
pub record SrvRr : Type 0 where
  pub priority : ℕ
  pub weight : ℕ
  pub port : ℕ
  pub target : ℕ
  pub target_len : ℕ
  pub ttl : ℕ
  pub qclass : ℕ
  pub type : ℕ

-- How many records at the front of a list have priority `p`: the loop that finds the
-- begin of the next priority.
unfoldable pub same_priority : ℕ → List SrvRr → ℕ
same_priority p [] = 0
same_priority p (d ∷ ds) = if p == d.priority then suc (same_priority p ds) else 0

unfoldable pub next_slot : Option ℕ → Option ℕ
next_slot none = none
next_slot (some i) = some (suc i)

-- The loop that finds the index to insert at; `none` when the record goes to the tail.
unfoldable pub find_slot : SrvRr → List SrvRr → Option ℕ
find_slot r [] = none
find_slot r (d ∷ ds) =
    if ltb r.priority d.priority
    then next_slot (find_slot r ds)
    else if r.weight == 0
    then (if same_priority r.priority (d ∷ ds) == length (d ∷ ds)
        then none
        else some (same_priority r.priority (d ∷ ds)))
    else some 0

module _ (mem : ℕ → Bool) where
  -- `ruli_list_push` and `ruli_list_insert_at`; `none` is RULI_LIST_MALLOC.
  unfoldable pub list_push : List SrvRr → SrvRr → Option (List SrvRr)
  list_push l r = if mem (length l) then some (l ++ (r ∷ [])) else none

  unfoldable pub list_insert_at : List SrvRr → ℕ → SrvRr → Option (List SrvRr)
  list_insert_at l i r = if mem (length l) then some (take i l ++ (r ∷ drop i l)) else none

  unfoldable pub insert_slot : List SrvRr → Option ℕ → SrvRr → Option (List SrvRr)
  insert_slot dst none r = some dst
  insert_slot dst (some i) r = list_insert_at dst i r

  -- One record of step 3. `srv_rdata = 0` marks a record as handled, but the test behind the loop
  -- is on `ti_srv_rr`, which is not null, so the record is pushed in every case.
  unfoldable pub sort_one : List SrvRr → SrvRr → Option (List SrvRr)
  sort_one dst r = elim (insert_slot dst (find_slot r dst) r) [
    | none ↦ none
    | some dst' ↦ list_push dst' r
  ]

  -- Step 3, with `dst` for `pri_srv_list`; `none` is RULI_SRV_CODE_LIST.
  unfoldable pub sort_from : List SrvRr → List SrvRr → Option (List SrvRr)
  sort_from dst [] = some dst
  sort_from dst (r ∷ src) = elim (sort_one dst r) [ none ↦ none | some dst' ↦ sort_from dst' src ]

  unfoldable pub sort_by_priority : List SrvRr → Option (List SrvRr)
  sort_by_priority src = sort_from [] src

-- The sum of the weights at the front of a list that have priority `p`.
unfoldable pub weight_sum : ℕ → List SrvRr → ℕ
weight_sum p [] = 0
weight_sum p (r ∷ rs) = if p == r.priority then r.weight + weight_sum p rs else 0

-- The walk to the least running sum that is not below `rnd`: the record there, and the list
-- without it. `assert(i >= 0)` fails at the end of the list.
unfoldable pub pick : ℕ → ℕ → List SrvRr → Run (SrvRr × List SrvRr)
pick rnd run_sum [] = abort
pick rnd run_sum (r ∷ rs) =
    if ltb (run_sum + r.weight) rnd
    then (do (x, rest) ← pick rnd (run_sum + r.weight) rs; done (x, r ∷ rest))
    else done (r, rs)

-- `if (ruli_list_push(…)) return query_done(srv_qry, RULI_SRV_CODE_LIST);`
unfoldable pub when_pushed :
    Option (List SrvRr) → (List SrvRr → Run (Option (List SrvRr))) → Run (Option (List SrvRr))
when_pushed none k = done none
when_pushed (some l) k = k l

-- Step 4. The code walks `pri_srv_list` from its end, so the list stands here in reverse; `rand k max` is
-- what the call of `ruli_rand_next(…, 0, max)` returns when `k` records are left.
module _ (mem : ℕ → Bool) (rand : ℕ → ℕ → Run ℕ) where
  unfoldable pub select_from : ℕ → List SrvRr → List SrvRr → Run (Option (List SrvRr))
  select_from zero [] dst = done (some dst)
  select_from zero (r ∷ rs) dst = no_fuel
  select_from (suc n) [] dst = done (some dst)
  select_from (suc n) (r ∷ rs) dst = do
    rnd ← rand (length (r ∷ rs)) (weight_sum r.priority (r ∷ rs))
    (x, rest) ← pick rnd 0 (r ∷ rs)
    when_pushed (list_push mem dst x) (λ dst'. select_from n rest dst')

  unfoldable pub select_by_weight : List SrvRr → Run (Option (List SrvRr))
  select_by_weight src = select_from (length src) (reverse src) []
