-- ===== src/Guest.antt =====
-- The guest agent, guest/src/lib.rs: it runs one command per connection and relays its output.
pub mod Io
pub mod Frame
pub mod Control
pub mod Action
pub mod Tree
pub mod Output
pub mod Run
pub mod Serve
pub mod Cleanup
pub mod Sweep
pub mod Reported
pub mod Kills
pub mod Ending
pub mod Clean
pub mod Reach
pub mod Deadline
