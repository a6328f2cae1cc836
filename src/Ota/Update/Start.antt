-- ===== src/Ota/Update/Start.antt =====
-- `ota_update` of jni/hidserv.c, from its entry to the first command.
use bt_ota_bluez_api.Common.{
  ℕ, ◌+◌, Bool, true, false, ◌||◌, Option, none, some, List, [], ◌∷◌, ltb, ◌==◌, update, ◌>>=◌,
  ◌>>◌, check,
}
use bt_ota_bluez_api.Common.Int.{pos}
use bt_ota_bluez_api.Ota.Globals.{Globals}
use bt_ota_bluez_api.Ota.Update.State.{ota_fail, send_next_cmd, fw_data_buf_size, Updater, System}

-- The loop that reads the file: `i` is the next index of `fw_data_buf`.
unfoldable pub read_fw : List ℕ → ℕ → (ℕ → ℕ) → Option (ℕ × (ℕ → ℕ))
read_fw [] i buf = some (i, buf)
read_fw (c ∷ file) i buf = do check (ltb i fw_data_buf_size); read_fw file (i + 1) (update buf i c)

-- `!strcmp(param2, "Y") || !strcmp(param2, "y")`.
abbrev pub is_yes : List ℕ → Bool
is_yes (c ∷ []) = c == b'Y' || c == b'y'
is_yes _ = false

abbrev pub is_verbose : Option (List ℕ) → Bool
is_verbose none = false
is_verbose (some param2) = is_yes param2

-- The globals that `ota_update` sets first.
abbrev pub init_vars : Option (List ℕ) → Globals → Globals
init_vars param2 g = record g {
  num1 = 0;
  num2 = 0;
  flag_read = true;
  is_finish_cmd = false;
  is_verbose_log = is_verbose param2;
  total_cmd_num = 0;
}

-- The locals that `ota_update` initialises; `stack` is what the rest of them hold.
abbrev locals : Updater → Updater
locals stack = record stack {
  fw_data_len = 0;
  remain_data_len = pos 0;
  wait_count = 0;
  send_count = 0;
  current_cmd_idx = 0;
  current_cmd_len = 0;
  crc_res = 0;
}

-- What follows `fopen`: FLAG_OTA_FAIL, or the file is read and the reading thread created.
unfoldable pub on_open : Option (List ℕ) → Option (List ℕ) → Updater → Bool → System → Option System
on_open none param2 stack created s = some (record s {
  globals = init_vars param2 s.globals;
  updater = record (locals stack) { pc = ota_fail };
})
on_open (some file) param2 stack created s = do
  (len, buf) ← read_fw file 0 stack.fw_data_buf
  some (record s {
    globals = init_vars param2 s.globals;
    updater = record (locals stack) {
      pc = send_next_cmd;
      fw_data_len = len;
      remain_data_len = pos len;
      fw_data_buf = buf;
    };
    reader_running = created;
  })

-- From the entry to FLAG_SNED_NEXT_CMD. `fopen` gives the file's bytes, and `created` tells whether
-- `pthread_create` succeeded. A null `param1` leaves the file name unset, and it is used all the
-- same.
unfoldable pub ota_start :
    Option (List ℕ)
    → Option (List ℕ)
    → (List ℕ → Option (List ℕ))
    → Updater
    → Bool
    → System
    → Option System
unfolding on_open
ota_start none param2 fopen stack created s = none
ota_start (some file_name) param2 fopen stack created s =
    on_open (fopen file_name) param2 stack created s
