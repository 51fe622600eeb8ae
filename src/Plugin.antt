-- ===== src/Plugin.antt =====
-- gateway/internal/plugin: the plugin contract, the chain, the built-in plugins.
pub mod Contract
pub mod Values
pub mod AddHeader
pub mod SizeLimit
pub mod JwtAuth
pub mod Cors
pub mod RateLimit
pub mod SugarDb
pub mod ResponseHeaders
pub mod HttpLog
pub mod Registry
mod Examples
