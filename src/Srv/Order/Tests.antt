-- ===== src/Srv/Order/Tests.antt =====
-- Records with priorities and weights, sorted and selected.
use ruli.Common.{
  ℕ, Bool, true, List, [], ◌∷◌, some, refl, arith, inl, ◌≡◌, ◌≤◌, ◌+◌, Run, done, count, ◌==◌,
}
use ruli.Srv.Order.Duplicates.{sort_by_priority-duplicates}
use ruli.Srv.Order.Late.{late, sort_by_priority-late}
use ruli.Srv.Order.Preference.{order_inverted, order_descending}
use ruli.Srv.Order.Selection.{InRange, IsAscending, Picked, pick-Picked, select_by_weight-Selects}
use ruli.Srv.Order.{SrvRr, sort_by_priority, select_by_weight, weight_sum}
use mathlib.Core.List.{Perm}

abbrev record_of : ℕ → ℕ → SrvRr
record_of priority weight = record {
  priority = priority;
  weight = weight;
  port = 80;
  target = 0;
  target_len = 1;
  ttl = 60;
  qclass = 1;
  type = 33;
}

abbrev main_server : SrvRr
main_server = record_of 10 5

abbrev backup_server : SrvRr
backup_server = record_of 20 5

-- An allocator that has memory for everything, and the highest random number.
abbrev always : ℕ → Bool
always n = true

abbrev highest : ℕ → ℕ → Run ℕ
highest k max = done max

highest-InRange : InRange highest
highest-InRange k max = (max, refl, omega arith)

order_inverted_example :
    (l more : List SrvRr) × (sort_by_priority always (main_server ∷ backup_server ∷ []) ≡ some l)
    × (select_by_weight always highest l ≡ done (some (backup_server ∷ more)))
    × Perm more (main_server ∷ backup_server ∷ [])
order_inverted_example =
    order_inverted always (λ n. refl) highest highest-InRange main_server backup_server
      (omega arith)

order_descending_example :
    (out : List SrvRr) × (sort_by_priority always (backup_server ∷ main_server ∷ [])
      ≡ some (backup_server ∷ main_server ∷ []))
    × (select_by_weight always highest (backup_server ∷ main_server ∷ []) ≡ done (some out))
    × Perm out (backup_server ∷ main_server ∷ [])
    × IsAscending out
order_descending_example =
    order_descending always (λ n. refl) highest highest-InRange (backup_server ∷ main_server ∷ [])
      ((omega arith, tt), (tt, tt))

select_by_weight-Selects_example :
    (out : List SrvRr) × (select_by_weight always highest
        (backup_server ∷ record_of 10 0 ∷ main_server ∷ [])
      ≡ done (some out))
    × Perm out (backup_server ∷ record_of 10 0 ∷ main_server ∷ [])
    × IsAscending out
select_by_weight-Selects_example =
    select_by_weight-Selects always (λ n. refl) highest highest-InRange
      (backup_server ∷ record_of 10 0 ∷ main_server ∷ [])
      ((omega arith, (omega arith, tt)), ((omega arith, tt), (tt, tt)))

sort_by_priority-duplicates_example :
    sort_by_priority always (main_server ∷ backup_server ∷ [])
    ≡ some (backup_server ∷ main_server ∷ backup_server ∷ [])
sort_by_priority-duplicates_example =
    sort_by_priority-duplicates always (λ n. refl) main_server backup_server (omega arith)
      (inl (ground arith))

-- How many references to `main_server` there are.
abbrev is_main : SrvRr → Bool
is_main r = r.priority == 10

sort_by_priority-late_example :
    (out : List SrvRr) × (sort_by_priority always
        (record_of 30 5 ∷ main_server ∷ backup_server ∷ [])
      ≡ some out)
    × (count is_main out
        ≡ count is_main (record_of 30 5 ∷ main_server ∷ backup_server ∷ [])
          + count is_main (late [] (record_of 30 5 ∷ main_server ∷ backup_server ∷ [])))
sort_by_priority-late_example =
    sort_by_priority-late always (λ n. refl) is_main
      (record_of 30 5 ∷ main_server ∷ backup_server ∷ []) (ground arith)

weight_enough : 7 ≤ 0 + weight_sum 10 (main_server ∷ record_of 10 3 ∷ backup_server ∷ [])
unfolding weight_sum
weight_enough = omega arith

pick-Picked_example : Picked 7 0 10 (main_server ∷ record_of 10 3 ∷ backup_server ∷ [])
pick-Picked_example =
    pick-Picked 7 10 0 main_server (record_of 10 3 ∷ backup_server ∷ []) refl (weight_enough)
