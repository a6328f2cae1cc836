-- ===== src/Ota/Crc.antt =====
-- The two checksums of jni/hidserv.c, `crc16_ccitt` and `crc32`.
pub mod Table
pub mod Sums
pub mod Division
pub mod Laws
pub mod Reflected
pub mod Built
pub mod Entries
