-- ===== src/Addr.antt =====
-- src/ruli_addr.c: scopes, labels and precedences of addresses, and the order of RFC 3484.
--
-- An address is the list of its bytes in network order: 4 for IPv4, 16 for IPv6.
pub mod Prefix
pub mod Compare
