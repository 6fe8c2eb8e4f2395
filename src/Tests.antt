-- ===== src/Tests.antt =====
-- The theorems at concrete inputs.
pub mod Structures
pub mod Volumes
pub mod Keys
pub mod Mounting
pub mod Starting
pub mod Opening
pub mod Saving
pub mod Files
pub mod Reopening
pub mod Growing
pub mod Sequels
