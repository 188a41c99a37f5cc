-- ===== src/Kea.antt =====
-- The KEA128 board: its flash memory, and the application.
pub mod Flash
pub mod FlashLoad
pub mod Uds
pub mod Ms1
pub mod Can
pub mod Script
