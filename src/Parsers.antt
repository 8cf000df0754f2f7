-- ===== src/Parsers.antt =====
-- Parsing of provider evidence, apps/api/src/parsers.
pub mod Phone
