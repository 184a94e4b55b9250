-- ===== src/Worker.antt =====
-- internal/worker: the retry manager, the executor of workflows and the engine.
pub mod Retry
pub mod Executor
pub mod Engine
pub mod Pool
