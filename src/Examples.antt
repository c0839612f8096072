-- ===== src/Examples.antt =====
-- The theorems at concrete inputs.
pub mod Engine
pub mod Objects
pub mod Files
pub mod Machine
pub mod Hardware
pub mod Memory
pub mod Sync
pub mod Submits
pub mod Boot
pub mod Cores
