-- ===== src/Saves.antt =====
-- pkg/gamemanagement/factorio/v1/saves.go
pub mod Paths
pub mod Archive
pub mod Examples
