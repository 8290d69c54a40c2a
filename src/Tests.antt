-- ===== src/Tests.antt =====
-- Concrete inputs: tests, and instances of the theorems.
mod MemoryDatabase
mod MemoryBucket
mod Backends
mod Buckets
mod Watches
mod Leases
mod Servers
mod Dialects
mod Logs
mod Databases
mod Channels
mod Clients
