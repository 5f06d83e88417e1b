-- ===== src/Invoker.antt =====
-- The invoker, src/invoker: the program by which users and services launch applications.
pub mod Send
pub mod Wait
pub mod Options
pub mod Exit
pub mod Search
pub mod Connect
pub mod Program
pub mod Signals
