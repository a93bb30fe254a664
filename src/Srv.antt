-- ===== src/Srv.antt =====
-- src/ruli_srv.c: the answer to an SRV query.
pub mod Order
pub mod Answer
