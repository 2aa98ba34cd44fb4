-- ===== src/Tests.antt =====
-- Runs of the models at concrete inputs.
pub mod Fixtures
pub mod Policies
pub mod Leases
pub mod Activations
pub mod Provisions
pub mod Deploys
pub mod Guests
pub mod Streams
pub mod Gardens
