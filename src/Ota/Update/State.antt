-- ===== src/Ota/Update/State.antt =====
-- `ota_update` of jni/hidserv.c as a machine: its states.
use bt_ota_bluez_api.Common.{ℕ, Bool, List}
use bt_ota_bluez_api.Common.Int.{ℤ}
use bt_ota_bluez_api.Hid.Sockets.{Sockets}
use bt_ota_bluez_api.Ota.Globals.{Globals}

-- Where the code stands: at FLAG_SNED_NEXT_CMD, at FLAG_RETRY_CMD, before `hidWrite`, at the head of
-- the waiting loop, at FLAG_OTA_FAIL, at FLAG_OTA_SUCCESS, or past its `return`.
pub data Pc : Type 0 where
  send_next_cmd retry_cmd write_cmd wait_response ota_fail ota_success returned : Pc

abbrev pub fw_data_buf_size : ℕ
fw_data_buf_size = 524288

abbrev pub cmd_buf_size : ℕ
cmd_buf_size = 1024

-- The locals of `ota_update`.
pub record Updater : Type 0 where
  pub pc : Pc
  pub fw_data_len : ℕ
  pub remain_data_len : ℤ
  pub wait_count : ℕ
  pub send_count : ℕ
  pub current_cmd_idx : ℕ
  pub current_cmd_len : ℕ
  pub fw_data_buf : ℕ → ℕ
  pub cmd_buf : ℕ → ℕ
  pub crc_res : ℕ

-- The two threads, the sockets, and the packets that went out on the interrupt channel, the last
-- one first.
pub record System : Type 0 where
  pub globals : Globals
  pub updater : Updater
  pub reader_running : Bool
  pub sockets : Sockets
  pub wire : List (List ℕ)
