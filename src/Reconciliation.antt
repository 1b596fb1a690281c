-- ===== src/Reconciliation.antt =====
-- services/reconciliation: the write side of the platform.
pub mod Events
pub mod Projection
pub mod Tables
pub mod Resolve
pub mod Observe
pub mod Reconcile
pub mod Delta
pub mod Laws
pub mod Repoint
pub mod Unmerge
pub mod Candidates
pub mod Kept
pub mod Run
pub mod Retention
pub mod Aging
mod Tests
