-- ===== src/Http.antt =====
-- The parts of Go's net/http that the gateway's handlers use: headers, requests, response writers.
pub mod Header
pub mod Request
pub mod Writer
