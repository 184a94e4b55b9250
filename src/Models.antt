-- ===== src/Models.antt =====
-- The data types of internal/models.
pub mod Value
pub mod Task
pub mod Workflow
pub mod Notification
pub mod Template
