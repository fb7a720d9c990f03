-- ===== src/ProcessInfo.antt =====
-- src/processinfo.h, src/processinfo.cpp: the class ProcessInfo.
pub mod State
pub mod Life
pub mod Stat
pub mod Getters
pub mod Io
pub mod Usage
pub mod Status
pub mod Links
pub mod Environ
pub mod Smaps
pub mod Tty
pub mod Fd
pub mod Cgroup
pub mod Limits
pub mod Stack
