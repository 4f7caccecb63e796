-- ===== src/Runtime.antt =====
-- src/python_tty/runtime: the events, the per-run event bus, the job store and the run context.
pub mod Events
pub mod Context
pub mod EventBus
pub mod Jobs
pub mod Router
