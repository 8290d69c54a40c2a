-- ===== src/Server.antt =====
-- kine/pkg/server: the etcd facade over a Backend.
pub mod Types
pub mod Convert
pub mod Classify
pub mod Limited
pub mod Range
pub mod Bridge
pub mod Watch
