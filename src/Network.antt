-- ===== src/Network.antt =====
-- Network ownership: src/commands/activator/network.rs and network_host.rs.
pub mod Lease
pub mod Os
pub mod Logic
pub mod Script
pub mod Host
pub mod Files
pub mod Peer
pub mod Store
pub mod Operations
pub mod Requests
pub mod Passive
pub mod Ownership
pub mod Asking
pub mod Cgroup
pub mod Identity
pub mod Provision
pub mod Names
pub mod Isolation
pub mod Order
pub mod Revoke
pub mod Routes
pub mod Reserve
pub mod Disjoint
pub mod Release
