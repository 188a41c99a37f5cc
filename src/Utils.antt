-- ===== src/Utils.antt =====
-- libuptiny/utils.c: text and binary forms of bytes, numbers and times.
pub mod Hex
pub mod Dec
pub mod Time
