-- ===== src/Ota/Globals.antt =====
-- The file-static variables of jni/hidserv.c that the update and its reading thread share.
use bt_ota_bluez_api.Common.{ℕ, Bool, List}
use bt_ota_bluez_api.Ota.Protocol.{Stage}

-- `ota_status` and `current_data_seq` are ints, kept as 32-bit patterns. `rsp_cmd` is an array of
-- `char`, kept as bytes.
pub record Globals : Type 0 where
  pub num1 : ℕ
  pub num2 : ℕ
  pub flag_read : Bool
  pub ota_status : ℕ
  pub ota_stage : Stage
  pub current_data_seq : ℕ
  pub is_finish_cmd : Bool
  pub is_verbose_log : Bool
  pub total_cmd_num : ℕ
  pub rsp_cmd : List ℕ
