-- ===== src/Nats.antt =====
-- kine/pkg/drivers/nats: the backend that keeps every key in a bucket of a NATS stream.
pub mod Codec
pub mod Bucket
pub mod Driver
pub mod Listing
pub mod Watching
pub mod Locks
pub mod Connection
