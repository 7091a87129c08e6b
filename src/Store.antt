-- ===== src/Store.antt =====
-- pkg/store/store.go
pub mod Fifo
pub mod Types
pub mod State
pub mod Evict
pub mod Ops
pub mod Limit
pub mod View
mod Tests
