-- ===== src/Tests.antt =====
-- Concrete instances of the model's parameters, and the theorems applied to them.
mod Format
mod Server
mod Queues
mod Workers
mod Values
mod Retries
mod NamedQueues
mod Services
mod Pools
mod Notifications
mod Mail
mod Mailing
mod Failing
mod Tokens
