-- ===== src/Reconcile.antt =====
-- crates/nclav-reconciler.
pub mod Template
pub mod Report
pub mod Plan
pub mod Action
pub mod Partitions
pub mod Enclaves
pub mod Teardown
pub mod Imports
pub mod Pass
pub mod Contract
pub mod DryRun
pub mod Failures
pub mod ResourcesOnly
pub mod Reliable
pub mod Examples
