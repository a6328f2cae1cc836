-- ===== src/Ota/Protocol.antt =====
-- The OTA protocol's numbers and enumerations (jni/include/OTADefine.h), and the three command
-- templates that `init_cmd` of jni/hidserv.c fills.
use bt_ota_bluez_api.Common.{ℕ, zero, suc, List, set}

-- The command code of a packet.
abbrev pub start_cmd_code : ℕ
start_cmd_code = 0x01

abbrev pub data_cmd_code : ℕ
data_cmd_code = 0x02

abbrev pub finish_cmd_code : ℕ
finish_cmd_code = 0x03

-- `OTA_WAIT_TIME`: how many polls of 20 ms the sender waits for a response.
abbrev pub ota_wait_time : ℕ
ota_wait_time = 750

-- `enum OTA_RSP_STATUS`, as far as the code tells the values apart.
abbrev pub success : ℕ
success = 0

abbrev pub no_need_update : ℕ
no_need_update = 2

-- `enum OTA_STAGES`.
pub data Stage : Type 0 where
  stage_start stage_data stage_data_next stage_finish stage_err_retry stage_complete : Stage
  stage_retrying stage_next_cmd stage_new_cmd : Stage

-- Fields of a response, as indices into `rsp_cmd`.
abbrev pub rsp_cmd_len : ℕ
rsp_cmd_len = 6

abbrev pub f_rid : ℕ
f_rid = 0

abbrev pub f_r_cmd : ℕ
f_r_cmd = 2

abbrev pub f_r_seq0 : ℕ
f_r_seq0 = 3

abbrev pub f_r_seq1 : ℕ
f_r_seq1 = 4

abbrev pub f_r_stat : ℕ
f_r_stat = 5

-- Fields of a command template.
abbrev pub f_cmd : ℕ
f_cmd = 5

abbrev pub f_d_seq0 : ℕ
f_d_seq0 = 5

abbrev pub f_d_seq1 : ℕ
f_d_seq1 = 6

abbrev pub f_s_crctp : ℕ
f_s_crctp = 21

abbrev pub system_firmware : ℕ
system_firmware = 0xf0

abbrev pub crc16_ccitt_type : ℕ
crc16_ccitt_type = 0

-- Zeros to `n` indices from `i` on: the fields FS, RSA and EAP of a start command.
abbrev pub zero_fields : ℕ → ℕ → List ℕ → List ℕ
zero_fields zero i xs = xs
zero_fields (suc n) i xs = zero_fields n (suc i) (set xs i 0x00)

-- The static arrays `start_cmd`, `data_cmd` and `finish_cmd`.
pub record Templates : Type 0 where
  pub start_cmd : List ℕ
  pub data_cmd : List ℕ
  pub finish_cmd : List ℕ

-- `init_cmd`: the writes, in the order of the source.
unfoldable pub init_cmd : Templates → Templates
init_cmd t = record {
  start_cmd =
      set (zero_fields 12 9 (set (set t.start_cmd f_rid system_firmware) f_cmd start_cmd_code))
        f_s_crctp crc16_ccitt_type;
  data_cmd =
      set (set (set (set t.data_cmd f_rid system_firmware) f_cmd data_cmd_code) f_d_seq0 0x00)
        f_d_seq1 0x00;
  finish_cmd = set (set t.finish_cmd f_rid system_firmware) f_cmd finish_cmd_code;
}
