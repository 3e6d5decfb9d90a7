-- ===== src/Config.antt =====
-- internal/config/config.go: the configuration, which is read from the environment.
pub mod Environment
pub mod Ssh
pub mod Rules
pub mod Load
pub mod Checked
