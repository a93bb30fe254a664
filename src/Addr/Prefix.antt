-- ===== src/Addr/Prefix.antt =====
-- `get_scope`, the two prefix tables, `addr_in_net`, `match_prefix` and
-- `ruli_addr_get_common_prefix_bitlen`.
pub mod Lengths
pub mod Tables
mod Tests
use ruli.Common.{
  ℕ, zero, suc, ◌+◌, ◌-◌, ◌*◌, ◌/◌, ◌%◌, ◌^◌, Bool, true, false, ◌&&◌, ◌||◌, List, [], ◌∷◌, ◌++◌,
}
use ruli.Common.{
  bytes_equal, drop, length, get_or, replicate, leb, ◌==◌, if◌then◌else◌, bit_and, bit_xor, Run,
  done, bad_read, ◌>>=◌, ◌>>◌, check, read,
}

-- PF_INET and PF_INET6, the families that the code does not assert against.
pub data Family : Type 0 where
  inet inet6 : Family

-- `ruli_addr_scope_t`, as far as the code uses it.
abbrev pub scope_link_local : ℕ
scope_link_local = 0x2

abbrev pub scope_site_local : ℕ
scope_site_local = 0x5

abbrev pub scope_global : ℕ
scope_global = 0xE

abbrev pub scope_unspec : ℕ
scope_unspec = 0x10

abbrev pub byte : List ℕ → ℕ → ℕ
byte addr i = get_or addr i 0

abbrev pub in6addr_any : List ℕ
in6addr_any = replicate 16 0

abbrev pub in6addr_loopback : List ℕ
in6addr_loopback = replicate 15 0 ++ (1 ∷ [])

-- `get_scope`, with the IN6_IS_ADDR_… macros of <netinet/in.h> written out.
pub get_scope : Family → List ℕ → ℕ
get_scope inet addr =
    if (byte addr 0 == 169 && byte addr 1 == 254) || byte addr 0 == 127
    then scope_link_local
    else if byte addr 0 == 10
        || ((byte addr 0 == 192 && byte addr 1 == 168)
            || (byte addr 0 == 172 && (leb 16 (byte addr 1) && leb (byte addr 1) 31)))
    then scope_site_local
    else if bytes_equal addr (replicate 4 0)
    then scope_unspec
    else scope_global
get_scope inet6 addr =
    if byte addr 0 == 0xFF
    then bit_and (byte addr 1) 0xF
    else if byte addr 0 == 0xFE && bit_and (byte addr 1) 0xC0 == 0x80
    then scope_link_local
    else if bytes_equal addr in6addr_loopback
    then scope_link_local
    else if byte addr 0 == 0xFE && bit_and (byte addr 1) 0xC0 == 0xC0
    then scope_site_local
    else if bytes_equal addr in6addr_any
    then scope_unspec
    else scope_global

-- An entry of `struct prefixlist`.
pub record Prefix : Type 0 where
  pub prefix : List ℕ
  pub bits : ℕ
  pub val : ℕ

abbrev pub entry : List ℕ → ℕ → ℕ → Prefix
entry prefix bits val = record { prefix = prefix; bits = bits; val = val }

abbrev pub prefix_6to4 : List ℕ
prefix_6to4 = 0x20 ∷ 0x02 ∷ replicate 14 0

abbrev pub prefix_mapped : List ℕ
prefix_mapped = replicate 10 0 ++ (0xFF ∷ 0xFF ∷ replicate 4 0)

abbrev pub default_label : List Prefix
default_label =
    entry in6addr_loopback 128 0
    ∷ entry prefix_6to4 16 2
    ∷ entry in6addr_any 96 3
    ∷ entry prefix_mapped 96 4
    ∷ entry in6addr_any 0 1
    ∷ []

abbrev pub default_precedence : List Prefix
default_precedence =
    entry in6addr_loopback 128 50
    ∷ entry prefix_6to4 16 30
    ∷ entry in6addr_any 96 20
    ∷ entry prefix_mapped 96 10
    ∷ entry in6addr_any 0 40
    ∷ []

-- The part of `addr_in_net` behind the whole bytes, where `left` bits remain to be compared.
pub last_byte : ℕ → List ℕ → List ℕ → Bool
last_byte left net addr =
    if left == 0 then true else byte net 0 == bit_and (byte addr 0) (0xFF * 2 ^ (8 - left) % 2 ^ 8)

-- The loop of `addr_in_net` over the whole bytes, `n` of which are left.
pub net_loop : ℕ → ℕ → List ℕ → List ℕ → Bool
net_loop zero left net addr = last_byte left net addr
net_loop (suc n) left [] addr = false
net_loop (suc n) left (x ∷ net) [] = false
net_loop (suc n) left (x ∷ net) (y ∷ addr) = if x == y then net_loop n left net addr else false

pub addr_in_net : List ℕ → ℕ → List ℕ → Bool
addr_in_net net prefix_len addr = net_loop (prefix_len / 8) (prefix_len % 8) net addr

-- The IPv6 address that `match_prefix` looks up.
pub to_in6 : Family → List ℕ → List ℕ
to_in6 inet6 addr = addr
to_in6 inet addr =
    if bytes_equal addr (replicate 4 0)
    then in6addr_any
    else if bytes_equal addr (127 ∷ 0 ∷ 0 ∷ 1 ∷ [])
    then in6addr_loopback
    else replicate 10 0 ++ (0xFF ∷ 0xFF ∷ addr)

-- The loop of `match_prefix`, which does not check for the end of the table.
pub match_loop : List Prefix → List ℕ → Run ℕ
match_loop [] addr = bad_read
match_loop (p ∷ list) addr =
    if addr_in_net p.prefix p.bits addr then done p.val else match_loop list addr

pub match_prefix : List Prefix → Family → List ℕ → Run ℕ
match_prefix list family addr = match_loop list (to_in6 family addr)

pub get_label : Family → List ℕ → Run ℕ
get_label family addr = match_prefix default_label family addr

pub get_precedence : Family → List ℕ → Run ℕ
get_precedence family addr = match_prefix default_precedence family addr

-- `for (mask = *a1 ^ *a2; mask; mask >>= 1) --match_bits;` on a byte, with `n` rounds at most.
pub match_bits : ℕ → ℕ → ℕ → ℕ
match_bits zero mask bits = bits
match_bits (suc n) mask bits = match_bits n (mask / 2) (if mask == 0 then bits else bits - 1)

-- The loop of `ruli_addr_get_common_prefix_bitlen`, with `n` bytes left to compare.
pub prefix_loop : ℕ → List ℕ → List ℕ → ℕ → Run ℕ
prefix_loop zero a1 a2 bitlen = done bitlen
prefix_loop (suc n) a1 a2 bitlen = do
  x ← read a1 0
  y ← read a2 0
  if x == y
      then prefix_loop n (drop 1 a1) (drop 1 a2) (bitlen + 8)
      else done (bitlen + match_bits 8 (bit_xor x y) 8)

-- `ruli_addr_get_common_prefix_bitlen`; its tests that `byte_len` and `bitlen` are not negative hold for numbers.
pub common_prefix_bitlen : List ℕ → List ℕ → ℕ → Run ℕ
common_prefix_bitlen a1 a2 byte_len = do
  check (leb byte_len 32)
  bitlen ← prefix_loop byte_len a1 a2 0
  check (leb bitlen 128)
  done bitlen
