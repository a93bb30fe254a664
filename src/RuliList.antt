-- ===== src/RuliList.antt =====
-- src/ruli_list.c: the growable array of pointers that the other parts keep their items in.
--
-- The state is the part `items` of the array that is in use and its `capacity`; the slots behind it hold no value that
-- the code reads. `room` answers a call of `ruli_list_malloc` or `ruli_list_realloc` for so many slots.
pub mod Sequence
mod Tests
use ruli.Common.{ℕ, zero, suc, ◌+◌, ◌-◌, ◌*◌, ◌%◌, ◌^◌, ◌&&◌, ◌≤◌, ◌<◌, ◌≡◌, Bool, true}
use ruli.Common.{
  false, not, List, [], ◌∷◌, ◌++◌, Option, none, some, length, take, drop, set, get_elem?,
}
use ruli.Common.{
  ltb, leb, ◌==◌, if◌then◌else◌, Run, done, abort, bad_read, bad_write, ◌>>=◌, ◌>>◌, check, read,
}

pub record RuliList {ℓ} (A : Type ℓ) : Type ℓ where
  pub items : List A
  pub capacity : ℕ

-- RULI_LIST_OK with the list, or RULI_LIST_MALLOC.
pub data Result {ℓ} (A : Type ℓ) : Type ℓ where
  ok : RuliList A → Result A
  malloc_failed : Result A

-- The items stored in the array from slot `i` on, which has `capacity` slots.
abbrev pub at {ℓ} : {A : Type ℓ} → List A → ℕ → RuliList A
at items capacity = record { items = items; capacity = capacity }

module _ {ℓ} {A : Type ℓ} where
  pub ruli_list_new_cap : (ℕ → Bool) → ℕ → Run (Result A)
  ruli_list_new_cap room cap = do
    check (ltb 0 cap)
    if room cap then done (ok (at [] cap)) else done malloc_failed

  -- `new_cap` is an `int`, of which the 32 bits are kept here: `new_cap > 0` holds for those from 1 to 2^31 - 1.
  pub list_grow : (ℕ → Bool) → RuliList A → Run (Result A)
  list_grow room list = do
    let new_cap = list.capacity * 2 % 2 ^ 32
    check (ltb 0 new_cap && ltb new_cap (2 ^ 31))
    if room new_cap then done (ok (at list.items new_cap)) else done malloc_failed

  -- `list_grow`, if the array is full.
  pub reserve : (ℕ → Bool) → RuliList A → Run (Result A)
  reserve room list =
      if leb list.capacity (length list.items) then list_grow room list else done (ok list)

  -- `list->head[list->size] = item; ++list->size;`
  pub append_item : RuliList A → A → Run (RuliList A)
  append_item list item =
      if ltb (length list.items) list.capacity
      then done (at (list.items ++ (item ∷ [])) list.capacity)
      else bad_write

  pub and_then : Run (Result A) → (RuliList A → Run (RuliList A)) → Run (Result A)
  and_then m f = m >>= λ r. elim r [
    | malloc_failed ↦ done malloc_failed
    | ok list ↦ f list >>= λ l. done (ok l)
  ]

  pub ruli_list_push : (ℕ → Bool) → RuliList A → A → Run (Result A)
  ruli_list_push room list item = and_then (reserve room list) (λ l. append_item l item)

  -- The loop of `ruli_list_insert_at`, which moves `n` items up by one slot; it runs from slot `to` of the array down.
  pub move_up : ℕ → ℕ → List A → Run (List A)
  move_up zero to slots = done slots
  move_up (suc n) to slots = do x ← read slots (to - 1); move_up n (to - 1) (set slots to x)

  -- The items behind slot `idx` move up, from the last one down, and `item` is stored in the slot.
  pub store_at : RuliList A → ℕ → A → Run (RuliList A)
  store_at list idx item =
      if ltb (length list.items) list.capacity
      then (do
        slots ← move_up (length list.items - idx) (length list.items) (list.items ++ (item ∷ []))
        done (at (set slots idx item) list.capacity))
      else bad_write

  pub ruli_list_insert_at : (ℕ → Bool) → RuliList A → ℕ → A → Run (Result A)
  ruli_list_insert_at room list idx item = do
    check (ltb idx (length list.items))
    and_then (reserve room list) (λ l. store_at l idx item)

  -- The loop of `ruli_list_shift_at`, which moves `n` items down by one slot, to slot `to` first.
  pub move_down : ℕ → ℕ → List A → Run (List A)
  move_down zero to slots = done slots
  move_down (suc n) to slots = do x ← read slots (suc to); move_down n (suc to) (set slots to x)

  pub ruli_list_shift_at : RuliList A → ℕ → Run (A × RuliList A)
  ruli_list_shift_at list idx = do
    check (ltb idx (length list.items))
    item ← read list.items idx
    slots ← move_down (length list.items - suc idx) idx list.items
    done (item, at (take (length list.items - 1) slots) list.capacity)

  pub ruli_list_top : RuliList A → Run A
  ruli_list_top list = do check (ltb 0 (length list.items)); read list.items (length list.items - 1)

  pub ruli_list_pop : RuliList A → Run (A × RuliList A)
  ruli_list_pop list = do
    check (ltb 0 (length list.items))
    item ← read list.items (length list.items - 1)
    done (item, at (take (length list.items - 1) list.items) list.capacity)

  unfoldable pub ruli_list_drop : RuliList A → ℕ → Run (RuliList A)
  ruli_list_drop list idx = do
    check (ltb idx (length list.items))
    let size = length list.items - 1
    last ← read list.items size
    done (
        at (if idx == size then take size list.items else take size (set list.items idx last))
          list.capacity)

  pub ruli_list_get : RuliList A → ℕ → Run A
  ruli_list_get list idx = check (ltb idx (length list.items)) >> read list.items idx

  pub ruli_list_set : RuliList A → ℕ → A → Run (RuliList A)
  ruli_list_set list idx item = do
    check (ltb idx (length list.items))
    done (at (set list.items idx item) list.capacity)

  pub ruli_list_prune : RuliList A → ℕ → Run (RuliList A)
  ruli_list_prune list size = do
    check (leb size (length list.items))
    done (at (take size list.items) list.capacity)
