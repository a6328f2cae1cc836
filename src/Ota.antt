-- ===== src/Ota.antt =====
-- The firmware update: the protocol's numbers, the two checksums, the reading thread, the writer
-- and the update itself.
pub mod Protocol
pub mod Templates
pub mod Globals
pub mod Log
pub mod Crc
pub mod Reader
pub mod Writer
pub mod Update
pub mod Tests
