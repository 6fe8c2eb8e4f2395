-- ===== src/Bytes.antt =====
-- Byte sequences: parts of a sequence, and numbers and packed structures as bytes.
pub mod Slice
pub mod Packed
pub mod Cursor
