-- ===== src/Url.antt =====
-- src/smcp/url-helpers.c: percent encoding, and the parsing of URLs and their parts.
pub mod Chars
pub mod Percent
pub mod Text
pub mod Parse
pub mod Pieces
