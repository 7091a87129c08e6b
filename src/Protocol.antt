-- ===== src/Protocol.antt =====
-- pkg/protocol: the RESP parsers and writers.
pub mod Text
pub mod Writer
pub mod Command
pub mod Buffer
pub mod Stream
pub mod Decimal
pub mod RoundTrip
pub mod Consumed
pub mod Shortens
pub mod Panics
pub mod Extends
mod Tests
