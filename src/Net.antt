-- ===== src/Net.antt =====
-- The parts of `net/url` and `net` that the program uses.
pub mod Url
