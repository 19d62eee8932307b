-- ===== src/Logs.antt =====
-- Logs (internal/core/log_manager.go): the ring buffer and the manager that fills it.
pub mod Ring
pub mod Manager
pub mod Capture
