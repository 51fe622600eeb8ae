-- ===== src/Config.antt =====
-- gateway/internal/config: the configuration, its validation and the file watcher.
pub mod Types
pub mod HostName
pub mod Parse
pub mod Hosts
pub mod Watcher
mod Examples
