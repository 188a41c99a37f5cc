-- ===== src/Tests.antt =====
-- The examples on which the theorems are applied.
pub mod Metadata
pub mod Root
pub mod Targets
pub mod Utils
pub mod Parsing
pub mod Firmware
pub mod Kea
pub mod Ms1
pub mod Can
pub mod Script
pub mod Manifest
pub mod Upload
pub mod Signed
