-- ===== src/Txt.antt =====
-- src/ruli_txt.c: domain names as text, in wire format, and compressed in a message.
pub mod Names
pub mod Encode
pub mod Decode
pub mod Expand
pub mod RoundTrip
pub mod Compare
