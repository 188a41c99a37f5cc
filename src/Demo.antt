-- ===== src/Demo.antt =====
-- libuptiny-demo: a secondary that uses the library.
pub mod Upload
pub mod Pool
pub mod Stored
