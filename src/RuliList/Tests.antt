-- ===== src/RuliList/Tests.antt =====
-- A list of three items in an array that is full.
use ruli.Common.{ℕ, Bool, List, [], ◌∷◌, ◌++◌, refl, arith, ◌≡◌, done, abort, length, leb, ◌>>=◌}
use ruli.RuliList.{
  malloc_failed, at, ruli_list_new_cap, ruli_list_push, ruli_list_insert_at, ruli_list_shift_at,
  ruli_list_top, ruli_list_drop, ruli_list_get, ruli_list_set, ruli_list_prune,
}
use ruli.RuliList.Sequence.{
  capacity_for, stored, ruli_list_push-items, ruli_list_insert_at-items, ruli_list_shift_at-items,
}

abbrev items : List ℕ
items = 4 ∷ 5 ∷ 6 ∷ []

abbrev front : List ℕ
front = 4 ∷ []

-- The allocator has memory for up to 8 slots.
abbrev room : ℕ → Bool
room cap = leb cap 8

new_list : ruli_list_new_cap {A = ℕ} room 10 ≡ done malloc_failed
unfolding ruli_list_new_cap
new_list = refl

top_item : ruli_list_top (at items 3) ≡ done 6
unfolding ruli_list_top
top_item = refl

drop_first : ruli_list_drop (at items 3) 0 ≡ done (at (6 ∷ 5 ∷ []) 3)
unfolding ruli_list_drop
drop_first = refl

drop_last : ruli_list_drop (at items 3) 2 ≡ done (at (4 ∷ 5 ∷ []) 3)
unfolding ruli_list_drop
drop_last = refl

get_item : ruli_list_get (at items 3) 1 ≡ done 5
unfolding ruli_list_get
get_item = refl

set_item : ruli_list_set (at items 3) 3 9 ≡ abort
unfolding ruli_list_set
set_item = refl

pruned : ruli_list_prune (at items 3) 1 ≡ done (at (4 ∷ []) 3)
unfolding ruli_list_prune
pruned = refl

ruli_list_push-items_example :
    ruli_list_push room (at items 3) 7
    ≡ (capacity_for room 3 (length items) >>= stored (items ++ (7 ∷ [])))
ruli_list_push-items_example =
    ruli_list_push-items room items 3 7 (omega arith) (omega arith) (omega arith)

ruli_list_insert_at-items_example :
    ruli_list_insert_at room (at (front ++ (5 ∷ 6 ∷ [])) 3) (length front) 7
    ≡ (capacity_for room 3 (length (front ++ (5 ∷ 6 ∷ []))) >>= stored (front ++ (7 ∷ 5 ∷ 6 ∷ [])))
ruli_list_insert_at-items_example =
    ruli_list_insert_at-items room front 5 (6 ∷ []) 3 7 (omega arith) (omega arith) (omega arith)

ruli_list_shift_at-items_example :
    ruli_list_shift_at (at (front ++ (5 ∷ 6 ∷ [])) 3) (length front)
    ≡ done (5, at (front ++ (6 ∷ [])) 3)
ruli_list_shift_at-items_example = ruli_list_shift_at-items front 5 (6 ∷ []) 3
