-- ===== src/Command.antt =====
-- cmd/dealer/main.go: the settings read from the environment (Environment, Settings), the servers
-- that are started (Servers), what happens until the process ends (Serving) and how it ends (Shutdown), and
-- the handler of the project's information (Info).
pub mod Environment
pub mod Settings
pub mod Servers
pub mod Shutdown
pub mod Serving
pub mod Info
mod Examples
mod HostingExamples
