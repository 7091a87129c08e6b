-- ===== src/Persistence.antt =====
-- pkg/persistence: the log of commands.
pub mod Log
pub mod Aof
pub mod Ends
pub mod Torn
mod Tests
