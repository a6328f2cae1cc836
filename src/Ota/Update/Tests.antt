-- ===== src/Ota/Update/Tests.antt =====
-- The theorems on `ota_update` at a concrete image of two commands: a start command of 7 bytes and a
-- data command of 8 bytes with number 5.
mod Runs
mod Late
use bt_ota_bluez_api.Common.{
  ◌+◌, ℕ, zero, suc, ◌≡◌, ◌↔◌, refl, ap, inl, inr, true, false, Option, none, some, List, [], ◌∷◌,
  arith, get_or, length, update, unsigned_char, signed_char,
}
use bt_ota_bluez_api.Common.Int.{pos}
use bt_ota_bluez_api.Hid.Sockets.{initial_sockets}
use bt_ota_bluez_api.Ota.Globals.{Globals}
use bt_ota_bluez_api.Ota.Protocol.{stage_retrying, stage_new_cmd}
use bt_ota_bluez_api.Ota.Reader.{
  read_bytes, read_error, read_round, on_read, on_response, copy_response, seq_of,
}
use bt_ota_bluez_api.Ota.Writer.{hid_write}
use bt_ota_bluez_api.Ota.Update.State.{System, Updater, send_next_cmd, wait_response, ota_success}
use bt_ota_bluez_api.Ota.Update.Start.{ota_start, read_fw, on_open}
use bt_ota_bluez_api.Ota.Update.StartLaws.{IsStarted, ota_start-IsStarted, ota_start_too_long}
use bt_ota_bluez_api.Ota.Update.Command.{begin_cmd, copy_cmd, note_data_cmd, fill_crc}
use bt_ota_bluez_api.Ota.Update.Begin.{IsBegun, begin_cmd-IsBegun}
use bt_ota_bluez_api.Ota.Update.Defined.{Fits, CountersFit, remain_after, begin_cmd_defined_iff}
use bt_ota_bluez_api.Ota.Update.Steps.{
  Turn, update_turn, reader_turn, run, turn, update_step, reader_step, next_cmd, retry, write, poll,
  leave,
}
use bt_ota_bluez_api.Ota.Update.Packets.{Sent}
use bt_ota_bluez_api.Ota.Update.Wire.{ota_update-Sent}
use bt_ota_bluez_api.Ota.Update.Decided.{GetsDecided, command_decided}
use bt_ota_bluez_api.Ota.Update.Cause.{Accepts, Completes}
use bt_ota_bluez_api.Ota.Update.Response.{Reading, advance_needs_answer, success_needs_completion}
use bt_ota_bluez_api.Ota.Update.Accepted.{Ready, command_accepted}
use bt_ota_bluez_api.Ota.Update.Answers.{answer_decides}
use bt_ota_bluez_api.Ota.Update.Ends.{stopped, AllClosed, shut_down}

abbrev image : List ℕ
image = 0xf0 ∷ 7 ∷ 0 ∷ 0 ∷ 1 ∷ 0 ∷ 0 ∷ 0xf0 ∷ 8 ∷ 0 ∷ 0 ∷ 2 ∷ 5 ∷ 0 ∷ 9 ∷ []

abbrev globals : Globals
globals = record {
  num1 = 0;
  num2 = 0;
  flag_read = true;
  ota_status = 0;
  ota_stage = stage_new_cmd;
  current_data_seq = 0;
  is_finish_cmd = false;
  is_verbose_log = false;
  total_cmd_num = 0;
  rsp_cmd = 0 ∷ 0 ∷ 0 ∷ 0 ∷ 0 ∷ 0 ∷ [];
}

abbrev updater : Updater
updater = record {
  pc = send_next_cmd;
  fw_data_len = 15;
  remain_data_len = pos 15;
  wait_count = 0;
  send_count = 0;
  current_cmd_idx = 0;
  current_cmd_len = 0;
  fw_data_buf = λ k. get_or image k 0;
  cmd_buf = λ _. 0;
  crc_res = 0;
}

abbrev system : System
system = record {
  globals = globals;
  updater = updater;
  reader_running = true;
  sockets = initial_sockets [];
  wire = [];
}

abbrev name : List ℕ
name = 0x66 ∷ []

abbrev storage : List ℕ → Option (List ℕ)
storage _ = some image

-- The device takes the start command, and says that the data command needs no update.
abbrev start_success : List ℕ
start_success = 0 ∷ 2 ∷ 0 ∷ 1 ∷ 0 ∷ 0 ∷ 0 ∷ []

abbrev data_unneeded : List ℕ
data_unneeded = 0 ∷ 2 ∷ 0 ∷ 2 ∷ 5 ∷ 0 ∷ 2 ∷ []

abbrev go_on : Turn
go_on = update_turn (pos 8)

-- Before the first command.
system-Ready : Ready system
system-Ready = record {
  at_next = refl;
  listens = (refl, refl);
  quiet = refl;
  header_fits = omega arith;
  command_fits = (omega arith, omega arith);
  progress_fits = (omega arith, omega arith);
}

command_accepted_example :
    (s' : System) × (run signed_char
        (go_on ∷ go_on ∷ go_on ∷ reader_turn (read_bytes start_success) ∷ go_on ∷ [])
        system
      ≡ some s')
    × (s'.updater.pc ≡ send_next_cmd)
    × (s'.wire ≡ (0x52 ∷ 0xf0 ∷ 7 ∷ 0 ∷ 0 ∷ 1 ∷ 0 ∷ 0 ∷ []) ∷ [])
    × (s'.globals.total_cmd_num ≡ 1)
    × (s'.updater.current_cmd_idx + s'.updater.current_cmd_len ≡ 7)
command_accepted_example =
    command_accepted signed_char 8 start_success system system-Ready (refl, refl, inl refl)

-- The data command was sent once, and is waited for.
abbrev waiting : System
waiting = record system {
  globals = record globals { ota_stage = stage_retrying; current_data_seq = 5; total_cmd_num = 2 };
  updater = record updater {
    pc = wait_response;
    send_count = 1;
    current_cmd_idx = 7;
    current_cmd_len = 8;
  };
}

-- The same, at the last poll of the third time.
abbrev waiting_last : System
waiting_last = record waiting {
  updater = record waiting.updater { send_count = 3; wait_count = 749 };
}

abbrev at_success : System
at_success = record waiting { updater = record waiting.updater { pc = ota_success } }

ota_start_example :
    IsStarted name none storage updater true system image
      (ota_start (some name) none storage updater true system)
ota_start_example =
    ota_start-IsStarted name none storage updater true system image refl (omega arith)

begin_cmd_example : IsBegun signed_char updater globals (begin_cmd signed_char updater globals)
begin_cmd_example =
    begin_cmd-IsBegun signed_char updater globals (omega arith) (omega arith) (omega arith)
      (omega arith) (omega arith)

-- A command of 1022 bytes.
abbrev long_updater : Updater
long_updater = record updater { fw_data_buf = update (update (λ _. 0) 1 0xfe) 2 0x03 }

begin_cmd_defined_example :
    ((r : Updater × Globals) × (begin_cmd signed_char long_updater globals ≡ some r)
      × CountersFit r.1.total_cmd_num r.0.remain_data_len)
    ↔ (Fits signed_char long_updater globals
        × CountersFit (globals.total_cmd_num + 1) (remain_after signed_char long_updater globals))
begin_cmd_defined_example = begin_cmd_defined_iff signed_char long_updater globals

-- A file of zeros, one byte longer than `fw_data_buf`.
unfoldable zeros : ℕ → List ℕ
zeros zero = []
zeros (suc n) = 0 ∷ zeros n

length-zeros : (n : ℕ) → length (zeros n) ≡ n
unfolding zeros
length-zeros zero = refl
length-zeros (suc n) = ap suc (length-zeros n)

abbrev long_storage : List ℕ → Option (List ℕ)
long_storage _ = some (zeros 524289)

ota_start_too_long_example : ota_start (some name) none long_storage updater true system ≡ none
ota_start_too_long_example =
    ota_start_too_long name none long_storage updater true system (zeros 524289) refl
      (omega (arith, length-zeros 524289))

shut_down_example :
    (run signed_char (go_on ∷ reader_turn read_error ∷ []) at_success ≡ some (stopped at_success))
    × AllClosed (stopped at_success).sockets
shut_down_example = shut_down signed_char (pos 8) read_error at_success (inr refl)

command_decided_example :
    GetsDecided unsigned_char (go_on ∷ reader_turn read_error ∷ go_on ∷ []) waiting_last
command_decided_example =
    command_decided unsigned_char (go_on ∷ reader_turn read_error ∷ go_on ∷ []) waiting_last tt refl
      (omega arith, omega arith, omega arith) (omega arith)

answer_decides_example :
    (s' : System) × (run signed_char (reader_turn (read_bytes start_success) ∷ go_on ∷ []) waiting
      ≡ some s')
    × (Accepts signed_char start_success waiting.globals → s'.updater.pc ≡ send_next_cmd)
    × (Completes signed_char start_success waiting.globals → s'.updater.pc ≡ ota_success)
answer_decides_example =
    answer_decides signed_char start_success (pos 8) waiting (refl, omega arith, refl, refl, refl)

-- The response to a start command is taken although a data command is waited for.
start_success-Accepts : Accepts signed_char start_success waiting.globals
start_success-Accepts = (refl, refl, inl refl)
