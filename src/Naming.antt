-- ===== src/Naming.antt =====
-- internal/controller: the names that the controller gives to the objects it creates.
pub mod Slug
pub mod Workload
pub mod Revision
pub mod Examples
