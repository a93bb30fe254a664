-- ===== src/Addr/Compare.antt =====
-- The destination address selection of RFC 3484, `rfc3484_cmp`, and the order that
-- `ruli_addr_rfc3484_sort` gives to `qsort`, `addr_cmp_preference`.
pub mod Ranks
pub mod Flip
mod Tests
use ruli.Common.{ℕ, ◌/◌, ◌%◌, ◌^◌, Bool, true, false, not, ◌&&◌, List}
use ruli.Common.{◌>>◌, ◌>>=◌, done, check, Run, ltb, leb, ◌==◌, if◌then◌else◌}
use ruli.Addr.Prefix.{
  Family, inet, inet6, get_scope, get_precedence, get_label, common_prefix_bitlen,
}

-- `ruli_addr_t`; `src` is the address of `src_sock`, which is there only if `has_src` says so.
pub record Addr : Type 0 where
  pub family : Family
  pub addr : List ℕ
  pub has_src : Bool
  pub src_family : Family
  pub src : List ℕ

-- The results -1, 0 and 1 of a comparison.
pub data Order : Type 0 where
  before same after : Order

abbrev pub family_equal : Family → Family → Bool
family_equal inet inet = true
family_equal inet inet6 = false
family_equal inet6 inet = false
family_equal inet6 inet6 = true

-- `ruli_addr_size`.
abbrev pub addr_size : Family → ℕ
addr_size inet = 4
addr_size inet6 = 16

-- The two tests of a rule, with the rules behind it.
pub prefer : Bool → Bool → Run Order → Run Order
prefer first second rest = if first then done before else if second then done after else rest

abbrev pub both_src : Addr → Addr → Bool
both_src a1 a2 = a1.has_src && a2.has_src

-- Rule 9, the longest matching prefix, and rule 10, which leaves the order unchanged.
pub rule_9 : Addr → Addr → Run Order
rule_9 a1 a2 =
    if family_equal a1.family a2.family && both_src a1 a2
    then (do
      check (addr_size a1.family == addr_size a2.family)
      len1 ← common_prefix_bitlen a1.addr a1.src (addr_size a1.family)
      len2 ← common_prefix_bitlen a2.addr a2.src (addr_size a1.family)
      prefer (ltb len2 len1) (ltb len1 len2) (done same))
    else done same

-- Rule 8, the smaller scope.
pub rule_8 : Addr → Addr → Run Order
rule_8 a1 a2 =
    let a1_dst_scope = get_scope a1.family a1.addr in
    let a2_dst_scope = get_scope a2.family a2.addr in
    prefer (ltb a1_dst_scope a2_dst_scope) (ltb a2_dst_scope a1_dst_scope) (rule_9 a1 a2)

-- Rule 6, the higher precedence.
pub rule_6 : Addr → Addr → Run Order
rule_6 a1 a2 = do
  a1_prec ← get_precedence a1.family a1.addr
  a2_prec ← get_precedence a2.family a2.addr
  prefer (ltb a2_prec a1_prec) (ltb a1_prec a2_prec) (rule_8 a1 a2)

-- The tests of rules 2 and 5: the first address matches its source and the second does not, or the other way round.
abbrev pub prefer_match : Bool → Bool → Run Order → Run Order
prefer_match match1 match2 rest = prefer (match1 && not match2) (not match1 && match2) rest

-- Rule 5, the matching label.
pub rule_5 : Addr → Addr → Run Order
rule_5 a1 a2 =
    if both_src a1 a2
    then (do
      a1_dst_label ← get_label a1.family a1.addr
      a2_dst_label ← get_label a2.family a2.addr
      a1_src_label ← get_label a1.src_family a1.src
      a2_src_label ← get_label a2.src_family a2.src
      prefer_match (a1_dst_label == a1_src_label) (a2_dst_label == a2_src_label) (rule_6 a1 a2))
    else rule_6 a1 a2

-- Rule 2, the matching scope.
pub rule_2 : Addr → Addr → Run Order
rule_2 a1 a2 =
    if both_src a1 a2
    then prefer_match (get_scope a1.family a1.addr == get_scope a1.src_family a1.src)
        (get_scope a2.family a2.addr == get_scope a2.src_family a2.src) (rule_5 a1 a2)
    else rule_5 a1 a2

-- `rfc3484_cmp`, which starts with rule 1: it avoids a destination without a source address.
pub rfc3484_cmp : Addr → Addr → Run Order
rfc3484_cmp a1 a2 =
    prefer (a1.has_src && not a2.has_src) (not a1.has_src && a2.has_src) (rule_2 a1 a2)

-- Whether `options` has the bit `RULI_RES_OPT_SRV_NOSORT6`, of weight 2 ^ 7, or `RULI_RES_OPT_SRV_RFC3484`, of weight 2 ^ 8.
abbrev pub has_option : ℕ → ℕ → Bool
has_option options bit = not (options / 2 ^ bit % 2 == 0)

-- `addr_cmp_preference` of the addresses at the positions `i1` and `i2` of the array that is sorted.
pub by_position : ℕ → ℕ → Run Order
by_position i1 i2 = prefer (ltb i1 i2) (ltb i2 i1) (done same)

pub by_family : ℕ → Addr → Addr → Run Order → Run Order
by_family options a1 a2 rest =
    if has_option options 7
    then rest
    else prefer (family_equal a1.family inet6 && family_equal a2.family inet)
        (family_equal a1.family inet && family_equal a2.family inet6) rest

pub addr_cmp_preference : ℕ → ℕ → Addr → ℕ → Addr → Run Order
addr_cmp_preference options i1 a1 i2 a2 =
    if has_option options 8
    then (do
      result ← rfc3484_cmp a1 a2
      elim result [
        | before ↦ done before
        | after ↦ done after
        | same ↦ by_family options a1 a2 (by_position i1 i2)
      ])
    else by_family options a1 a2 (by_position i1 i2)
