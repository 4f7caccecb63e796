-- ===== src/Examples.antt =====
-- Small inputs on which the theorems about the program are run.
pub mod Samples
pub mod Events
pub mod Jobs
pub mod Runs
pub mod Sessions
pub mod Registry
pub mod Tables
pub mod Sockets
pub mod Prints
pub mod Locks
pub mod Shells
pub mod Waits
pub mod Lines
pub mod Metas
pub mod Factories
pub mod Suites
