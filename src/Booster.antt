-- ===== src/Booster.antt =====
-- The class `Booster`, src/launcherlib/booster.cpp: the process that waits for an invocation.
pub mod Launch
pub mod Handover
pub mod Patience
pub mod Rename
pub mod Environment
pub mod Process
pub mod Initialize
pub mod Object
pub mod Nice
pub mod Ready
