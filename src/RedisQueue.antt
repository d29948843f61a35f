-- ===== src/RedisQueue.antt =====
-- The Redis queue of inengine-core/src/queue/driver/redis.
pub mod Server
pub mod Keys
pub mod Scripts
pub mod Driver
pub mod Represents
pub mod Claiming
pub mod Batches
pub mod Recovering
pub mod Sample
mod Examples
