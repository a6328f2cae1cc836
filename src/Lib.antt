-- ===== src/Lib.antt =====
-- Verification of the native library behind PMX OTA: the update of a Bluetooth remote control's
-- firmware over the HID channels of BlueZ (jni/hidserv.c, jni/androhid.c, jni/include/OTADefine.h), and
-- what is known of the device from SDP (jni/sdp.c).
--
-- The program. The application connects to the device with `connectToHost` (`reconnect`,
-- `do_connect`), which opens the HID control and interrupt channels, and starts `ota_update`. This
-- reads the firmware image, a sequence of commands each with its own size, creates the reading
-- thread `hidRead`, and sends one command after the other with `hidWrite`. After each it waits for
-- the reading thread to set `OTAStage` from the device's response: to go on, to send again, or to
-- end. The two threads share the globals of jni/hidserv.c without a lock. `create_device` hands a
-- device to the kernel with what jni/sdp.c has stored of it or asks it.
--
-- The files.
--   Common: Boolean tests, lists and arrays, integers, bit operations, hexadecimal text, and
--     C arithmetic. `CharSign` says whether a plain char is signed, which C leaves to the compiler;
--     a char is kept as its byte and promoted to the 32-bit pattern of an int. A computation in
--     `Option` is `none` where the code does something undefined, such as a write past an array.
--   Hid/Sockets, Hid/L2cap, Hid/Link, Hid/Connect: the descriptors in globals, the process's table of
--     open descriptors, and the functions that open and close them. What a system call returns is an
--     argument; a descriptor that a call gives is one that was not open when it was called.
--   Hid/Session: what these functions leave open. Hid/Request: the kernel's request for a new device.
--   Hid/Device: `create_device` and what it calls in jni/hidserv.c. Hid/NewDevice: `create_device` with
--     the functions of jni/sdp.c that it calls.
--   Common/Scan: what `sscanf` and `strtol` make of hexadecimal text and of words.
--   Sdp/Stored: `store_device_info` and `get_stored_device_info`. The text files of BlueZ are an
--     interface, `TextFiles`, whose law says that what was put without an error is got.
--   Sdp/Quirk: `epox_endian_quirk`, with a `size_t` and an int of 32 bits.
--   Sdp/DeviceInfo: `get_sdp_device_info`. The records and attributes of the SDP library are an
--     interface, `SdpLibrary`, whose laws are the widths of what is read. Texts have no NUL.
--   Ota/Protocol, Ota/Templates, Ota/Globals: constants, `init_cmd` and what it fills, and the shared
--     globals.
--   Ota/Crc: `crc16_ccitt`, `make_crc_table`, `crc32`, and bitwise division to compare them with.
--   Ota/Reader: a round of the loop of `hidRead`. Ota/Writer: `hidWrite`. Ota/Log: the text buffers of
--     the verbose log, with their sizes.
--   Ota/Update: `ota_update` as a machine. State has its states, Start the code up to the first
--     command, Command what FLAG_SNED_NEXT_CMD makes of the next command, Steps the steps and their
--     interleaving with the reading thread. Sender is the abstract sender that a run is compared with:
--     it knows the commands of the image, the number of each, and what a response's bytes say of it,
--     and makes one step per turn; Number, Said and Hearing are what the comparison needs of the numbers and of
--     the reading thread. The other files are theorems, by what they prove.
--   Sdp/Alternate: `get_alternate_device_info`.
--   Sdp/Service: what `bnep_sdp_register`, `dun_sdp_register` and their companions share: records,
--     `add_lang_attr`, the two static variables with a log of the calls of the SDP library, and
--     `bnep_sdp_unregister`, to which `dun_sdp_unregister` is equal. `Server` is an interface: a
--     search gives the registered records that have the class, in an order that it leaves open. Sdp/Bnep, Sdp/Dun: the register and search functions.
--   Jni: the entry points of jni/androhid.c. Jni/Session: connecting and updating, one after the other.
--   The Tests files apply the theorems to concrete data.
--
-- The machine. A step of the update is the code between two places where it may be interrupted with
-- an effect: FLAG_SNED_NEXT_CMD to FLAG_RETRY_CMD, FLAG_RETRY_CMD to the write, the write, a round of
-- the waiting loop, and an exit. A step of the reading thread is a round of its loop, from `read` on.
-- A schedule is a list of turns, each with what the system call in it returns; a run is the machine
-- driven by a schedule, so no fuel is needed, and theorems quantify over schedules. The waiting loop
-- takes 750 rounds and a command is sent three times, so a command has 3 * 752 + 1 = 2257 steps.
-- `wire` records what was written to the interrupt channel.
-- Ota/Update/Late splits a round of the reading thread where `OTAStage` is assigned, and its Machine
-- interleaves the parts with the steps of the update.
--
-- Choices. The shift of a negative int to the right is arithmetic, and that of a negative char to
-- the left keeps the 32-bit pattern, as compilers have them. `total_cmd_num` and `remain_data_len`
-- are unbounded numbers in the machine; Ota/Update/Defined says when they stay in the range of an
-- int. In one step from FLAG_SNED_NEXT_CMD to FLAG_RETRY_CMD the code sets `current_data_seq` to 0
-- and then to the command's number; a round of the reading thread in between is not modelled. A
-- round of the reading thread tests `flagRead` together with the result of `read`, so a response
-- whose `read` is pending when the update returns is dropped, while the code still looks at it,
-- after the return. The file is read without an error in its middle. `num1 * 649 * 100` must fit an
-- int, and the length that it is divided by must not be 0. Arrays on the stack hold anything at
-- first. `usleep` and the logging to Android have no effect; the verbose log's own buffers have.
--
-- Not modelled: the memory that jni/sdp.c allocates for service records, the Java activities, the
-- strings of JNI and their release, and the vendored headers jni/include/jni.h and
-- jni/include/log.h. The functions of BlueZ and of the system are arguments.
pub mod Common
pub mod Hid
pub mod Sdp
pub mod Ota
pub mod Jni
