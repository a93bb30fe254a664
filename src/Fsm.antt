-- ===== src/Fsm.antt =====
-- src/ruli_fsm.c: the state machine of a query.
pub mod Counters
pub mod Udp
pub mod Tcp
pub mod Connect
pub mod Datagrams
pub mod Stream
pub mod Reach
