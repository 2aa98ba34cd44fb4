-- ===== src/Policy.antt =====
-- Network policy: src/commands/activator/network_policy.rs.
pub mod Address
pub mod Subnet
mod Defs
pub mod Validated
pub mod Slots
unfoldable pub use Defs.*
