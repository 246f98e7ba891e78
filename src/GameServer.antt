-- ===== src/GameServer.antt =====
-- internal/controller/gameserver_controller.go, gameserver_disk_job.go, workload_name.go: the reconciler
-- of GameServers.
pub mod Types
pub mod Objects
pub mod Status
pub mod Disk
pub mod Inputs
pub mod Workload
pub mod Observe
pub mod Running
pub mod Shutdown
pub mod Reconcile
pub mod Absent
pub mod Gone
pub mod Stable
pub mod DiskSteps
pub mod StopSteps
pub mod RunSteps
pub mod StartSteps
pub mod Whole
pub mod Ceased
pub mod Honest
pub mod Held
pub mod Released
pub mod Finalized
pub mod Seen
pub mod Examples
