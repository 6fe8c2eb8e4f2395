-- ===== src/Utils.antt =====
-- The small value classes of include/storage/lib/utils.
pub mod Version
pub mod Time
