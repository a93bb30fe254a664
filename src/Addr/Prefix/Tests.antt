-- ===== src/Addr/Prefix/Tests.antt =====
-- Scopes, labels and common prefixes of addresses.
use ruli.Common.{
  ℕ, [], ◌∷◌, refl, ◌≡◌, ◌*◌, ◌-◌, ◌≤◌, done, replicate, ◌==◌, ◌&&◌, if◌then◌else◌, arith,
}
use ruli.Addr.Prefix.{
  inet, inet6, get_scope, scope_site_local, scope_global, get_label, get_precedence,
  common_prefix_bitlen,
}
use ruli.Addr.Prefix.Tables.{get_label_precedence, get_label-inet}
use ruli.Addr.Prefix.Lengths.{equal_bits, common_prefix-equal_bits}

private_network : get_scope inet (192 ∷ 168 ∷ 0 ∷ 1 ∷ []) ≡ scope_site_local
unfolding get_scope
private_network = refl

global_address : get_scope inet (8 ∷ 8 ∷ 8 ∷ 8 ∷ []) ≡ scope_global
unfolding get_scope
global_address = refl

get_label_precedence_example :
    (label : ℕ) × (get_label inet6 (0x20 ∷ 0x02 ∷ replicate 14 0) ≡ done label)
    × (get_precedence inet6 (0x20 ∷ 0x02 ∷ replicate 14 0) ≡ done (50 - 10 * label))
    × (label ≤ 4)
get_label_precedence_example = get_label_precedence inet6 (0x20 ∷ 0x02 ∷ replicate 14 0)

get_label-inet_example :
    get_label inet (127 ∷ 0 ∷ 0 ∷ 1 ∷ [])
    ≡ done (
        if 127 == 0 && (0 == 0 && (0 == 0 && 1 == 0))
        then 3
        else if 127 == 127 && (0 == 0 && (0 == 0 && 1 == 1))
        then 0
        else 4)
get_label-inet_example = get_label-inet 127 0 0 1

common_prefix-equal_bits_example :
    common_prefix_bitlen (10 ∷ 0 ∷ 1 ∷ 1 ∷ []) (10 ∷ 0 ∷ 3 ∷ 1 ∷ []) 4
    ≡ done (equal_bits 4 (10 ∷ 0 ∷ 1 ∷ 1 ∷ []) (10 ∷ 0 ∷ 3 ∷ 1 ∷ []))
common_prefix-equal_bits_example =
    common_prefix-equal_bits (10 ∷ 0 ∷ 1 ∷ 1 ∷ []) (10 ∷ 0 ∷ 3 ∷ 1 ∷ []) 4 (omega arith)
      (omega arith) (omega arith) (omega arith) (omega arith)

third_byte : equal_bits 4 (10 ∷ 0 ∷ 1 ∷ 1 ∷ []) (10 ∷ 0 ∷ 3 ∷ 1 ∷ []) ≡ 22
third_byte = refl
