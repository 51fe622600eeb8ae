-- ===== src/Loadtest.antt =====
-- The programs of loadtest that stand beside the gateway.
pub mod Jwtgen
pub mod Stubs
