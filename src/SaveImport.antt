-- ===== src/SaveImport.antt =====
-- internal/controller/saveimport_controller.go: the reconciler of save replacements.
pub mod Cluster
pub mod Messages
pub mod Authorize
pub mod Operations
pub mod Reconcile
pub mod Keeps
pub mod Untouched
pub mod Owners
pub mod Settled
pub mod Authorized
pub mod Guarded
pub mod Created
pub mod Texts
pub mod Deleted
pub mod Examples
