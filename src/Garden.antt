-- ===== src/Garden.antt =====
-- The client of the garden's admin socket: src/commands/garden.
pub mod Protocol
pub mod Config
pub mod Client
pub mod Line
pub mod Replies
