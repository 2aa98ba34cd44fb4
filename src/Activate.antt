-- ===== src/Activate.antt =====
-- Activation: src/commands/activator/handler.rs, activate.rs and services.rs.
pub mod Platform
pub mod Hash
pub mod Services
pub mod Run
pub mod Handler
pub mod Answers
pub mod Current
