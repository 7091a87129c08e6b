-- ===== src/EventLoop.antt =====
-- The event loops of pkg/server: pkg/server/eventloop_linux.go and pkg/server/eventloop_darwin.go.
pub mod Client
pub mod Gate
pub mod Loop
pub mod Schedule
pub mod Darwin
pub mod Alike
mod Tests
