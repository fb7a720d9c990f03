-- ===== src/Tests.antt =====
-- The theorems at concrete inputs.
pub mod Data
pub mod Stat
pub mod Usage
pub mod Status
pub mod Cpu
pub mod Maps
pub mod Files
pub mod Descriptors
pub mod Connector
pub mod Network
pub mod Lists
pub mod Proc
pub mod Session
pub mod Unix
