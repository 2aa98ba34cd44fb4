-- ===== src/Deploy.antt =====
-- Root activation over SSH: src/commands/deploy/sudo.rs.
pub mod Target
pub mod Quote
pub mod Remote
pub mod Decoder
pub mod Accept
pub mod Completion
pub mod Frames
pub mod Scan
