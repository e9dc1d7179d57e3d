-- ===== src/Redis.antt =====
-- plugins/dispatcher_redis: the connection to a Redis server, and the dispatcher that publishes
-- trees through it.
pub mod Connection
pub mod Handlers
pub mod Invariant
pub mod Events
pub mod Callbacks
pub mod Wire
pub mod Pairing
pub mod Cycle
pub mod Leftover
pub mod Dispatcher
pub mod Partial
pub mod Failure
pub mod Occupied
pub mod Replies
