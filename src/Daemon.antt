-- ===== src/Daemon.antt =====
-- The launcher daemon, src/launcherlib/daemon.cpp: it keeps one booster waiting, hands launched
-- applications over to their invokers, and survives a re-exec by a state file.
pub mod State
pub mod Reap
pub mod Invariant
pub mod Loop
pub mod Saved
pub mod Construct
pub mod Spec
