-- ===== src/Queue.antt =====
-- internal/repository/redis: the task queue on top of Redis.
pub mod Redis
pub mod Item
pub mod Pipelines
pub mod Repository
pub mod Census
pub mod Moves
pub mod Balance
pub mod Rules
pub mod Loops
pub mod Counters
pub mod History
pub mod Identity
pub mod Order
pub mod Dequeue
pub mod Named
pub mod Service
