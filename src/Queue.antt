-- ===== src/Queue.antt =====
-- The queue of inengine-core/src/queue.
pub mod Types
pub mod Envelope
pub mod Delivery
pub mod Registry
pub mod Compression
pub mod Api
pub mod Spec
pub mod Processing
pub mod Examples
pub mod Sample
