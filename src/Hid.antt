-- ===== src/Hid.antt =====
-- The HID channels of jni/hidserv.c: their descriptors, how they are opened and how they are closed.
pub mod Sockets
pub mod Request
pub mod L2cap
pub mod Link
pub mod Connect
pub mod Device
pub mod NewDevice
pub mod Session
pub mod Tests
