-- ===== src/Protocol/RoundTrip.antt =====
-- What pkg/protocol/writer.go writes, the parsers of pkg/protocol/parser.go read back.
pub mod Lines
pub mod Buffered
pub mod Streamed
