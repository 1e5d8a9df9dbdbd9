-- ===== src/Inbound.antt =====
-- Inbound packets: src/smcp/smcp-inbound.c and smcp-dupe.c.
pub mod Scan
pub mod Finish
pub mod Dupe
pub mod Options
