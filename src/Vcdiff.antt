-- ===== src/Vcdiff.antt =====
-- ably-c/src/delta/vcdiff.c: the VCDIFF (RFC 3284) decoder for message deltas.
pub mod Types
pub mod Varint
pub mod Table
pub mod Rfc
pub mod Machine
pub mod Window
pub mod Defined
pub mod Safety
pub mod Total
pub mod Whole
pub mod Sections
pub mod Small
pub mod Runs
