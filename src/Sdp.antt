-- ===== src/Sdp.antt =====
-- jni/sdp.c: what is known of a HID device, and the service records.
pub mod Stored
pub mod Quirk
pub mod DeviceInfo
pub mod Service
pub mod Alternate
pub mod Dun
pub mod Bnep
mod Tests
