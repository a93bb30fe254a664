-- ===== src/Addr/Compare/Tests.antt =====
-- Two destinations, of which one has a source address.
use ruli.Common.{true, [], ◌∷◌, refl, arith, ◌≡◌, ◌≢◌, done}
use ruli.Addr.Prefix.{inet}
use ruli.Addr.Compare.{Addr, Order, same, rfc3484_cmp, addr_cmp_preference}
use ruli.Addr.Compare.Ranks.{IsWhole, lexicographic, ranks, rfc3484_cmp-lexicographic}
use ruli.Addr.Compare.Flip.{flip, keys, addr_cmp_preference-flip}

abbrev near : Addr
near = record {
  family = inet;
  addr = 10 ∷ 0 ∷ 0 ∷ 1 ∷ [];
  has_src = true;
  src_family = inet;
  src = 10 ∷ 0 ∷ 0 ∷ 2 ∷ [];
}

abbrev far : Addr
far = record {
  family = inet;
  addr = 8 ∷ 8 ∷ 8 ∷ 8 ∷ [];
  has_src = true;
  src_family = inet;
  src = 10 ∷ 0 ∷ 0 ∷ 2 ∷ [];
}

near-IsWhole : IsWhole near
near-IsWhole = omega arith

far-IsWhole : IsWhole far
far-IsWhole = omega arith

rfc3484_cmp-lexicographic_example :
    rfc3484_cmp near far ≡ done (lexicographic (ranks true near) (ranks true far))
rfc3484_cmp-lexicographic_example =
    rfc3484_cmp-lexicographic near far true near-IsWhole far-IsWhole refl

addr_cmp_preference-flip_example :
    (order : Order) × (addr_cmp_preference 256 0 near 1 far ≡ done order)
    × (addr_cmp_preference 256 1 far 0 near ≡ done (flip order))
    × (order ≢ same)
    × (order ≡ lexicographic (keys 256 true 0 near) (keys 256 true 1 far))
addr_cmp_preference-flip_example =
    addr_cmp_preference-flip 256 0 1 near far true (omega arith) near-IsWhole far-IsWhole refl
