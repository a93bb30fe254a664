-- ===== src/Parse/Records/Tests.antt =====
-- Owners of records.
use ruli.Common.{ℕ, [], ◌∷◌, arith, ◌≡◌, done, Option}
use ruli.Parse.Records.{skip_rr_owner}
use ruli.Parse.Records.Owner.{EndsWithin, skip_rr_owner_bounds}

skip_rr_owner_bounds_example :
    (r : Option ℕ) × (skip_rr_owner (1 ∷ b'a' ∷ 192 ∷ 0 ∷ 5 ∷ []) 4 0 ≡ done r) × EndsWithin 0 4 r
skip_rr_owner_bounds_example = skip_rr_owner_bounds (1 ∷ b'a' ∷ 192 ∷ 0 ∷ 5 ∷ []) 4 0 (omega arith)
