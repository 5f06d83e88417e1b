-- ===== src/Tests.antt =====
-- Runs of the program on concrete inputs.
pub mod Environ
pub mod Pipe
pub mod Booster
pub mod Invoker
pub mod Sockets
pub mod Program
pub mod Daemon
pub mod Handover
pub mod Runs
pub mod Onward
pub mod Locks
pub mod Ready
pub mod Logs
pub mod ExitStatus
