-- ===== src/QueueAdmin.antt =====
-- The queue administration of inengine-core/src/queue_admin.
pub mod Messaging
pub mod Management
pub mod Publishing
