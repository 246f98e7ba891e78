-- ===== src/Mods.antt =====
-- pkg/gamemanagement/factorio/v1/mods.go: versions, dependencies, releases and archives of Factorio
-- mods.
pub mod Version
pub mod Dependency
pub mod Order
pub mod Decimal
pub mod Release
pub mod Archive
pub mod Scanned
pub mod Accepted
pub mod Contained
pub mod Examples
