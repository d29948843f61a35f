-- ===== src/Server.antt =====
-- The server of inengine-core/src/server: what runs a queued or scheduled command.
pub mod Consumers
pub mod Lifecycle
