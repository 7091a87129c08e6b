-- ===== src/Server.antt =====
-- pkg/server without its event loops, and cmd/fas.
pub mod Slot
pub mod Cluster
pub mod Eviction
pub mod Reply
pub mod Text
pub mod Config
pub mod Main
pub mod State
pub mod Handler
pub mod Keys
pub mod Info
pub mod Saving
pub mod Migrate
pub mod Execute
pub mod Session
pub mod Restore
pub mod Replication
pub mod Clients
pub mod Subscribe
pub mod HandOver
pub mod Pipeline
pub mod Connection
mod Tests
