-- ===== src/Examples.antt =====
-- Tests of the other modules: each runs a theorem at concrete data of internal/agent and
-- controllers.
pub mod Data
pub mod Journal
pub mod Ports
pub mod Ledgers
pub mod Plans
pub mod Vms
pub mod Agents
pub mod Planes
pub mod Preflight
pub mod Admission
pub mod Objects
