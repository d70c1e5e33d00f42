-- ===== src/Parser.antt =====
-- riftgate-parser: the incremental parsers of the wire formats.
pub mod Sse
pub mod Http1
