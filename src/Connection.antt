-- ===== src/Connection.antt =====
-- The booster's end of a conversation with an invoker, src/launcherlib/connection.cpp.
pub mod State
pub mod Receive
pub mod Actions
pub mod Delivery
pub mod Rounds
pub mod Invocation
pub mod Descriptors
pub mod Refusals
pub mod Termination
