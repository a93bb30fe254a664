-- ===== src/Parse.antt =====
-- src/ruli_parse.c: the sections of a DNS message and the data of its records.
pub mod Records
pub mod Message
pub mod Data
