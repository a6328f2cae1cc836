-- ===== src/Hid/Request.antt =====
-- `struct hidp_connadd_req`, the request that adds a HID device to the kernel.
use bt_ota_bluez_api.Common.{ℕ, List, []}

-- The fields that the code reads or writes. `rd_data` and `name` are what the pointer and the array
-- hold, the closing NUL of the name left out.
pub record Request : Type 0 where
  pub parser : ℕ
  pub rd_size : ℕ
  pub rd_data : List ℕ
  pub country : ℕ
  pub subclass : ℕ
  pub vendor : ℕ
  pub product : ℕ
  pub version : ℕ
  pub flags : ℕ
  pub name : List ℕ

-- A request after `memset`. The sockets and the idle time, which are set then, are not followed.
abbrev pub blank_request : Request
blank_request = record {
  parser = 0;
  rd_size = 0;
  rd_data = [];
  country = 0;
  subclass = 0;
  vendor = 0;
  product = 0;
  version = 0;
  flags = 0;
  name = [];
}
