-- ===== src/Ota/Update/Tests/Runs.antt =====
-- The theorems on whole runs, at the same image.
use bt_ota_bluez_api.Common.{
  ℕ, zero, suc, ◌≡◌, refl, inl, true, Option, none, some, List, [], ◌∷◌, arith, unsigned_char,
}
use bt_ota_bluez_api.Ota.Reader.{
  read_bytes, read_round, on_read, on_response, copy_response, seq_of,
}
use bt_ota_bluez_api.Ota.Writer.{hid_write}
use bt_ota_bluez_api.Ota.Update.State.{System}
use bt_ota_bluez_api.Ota.Update.Start.{ota_start, read_fw, on_open}
use bt_ota_bluez_api.Ota.Update.Command.{begin_cmd, copy_cmd, note_data_cmd, fill_crc}
use bt_ota_bluez_api.Ota.Update.Steps.{
  Turn, reader_turn, run, turn, update_step, reader_step, next_cmd, retry, write, poll, leave,
}
use bt_ota_bluez_api.Ota.Update.Cause.{Completes}
use bt_ota_bluez_api.Ota.Update.Response.{Reading, success_needs_completion}
use bt_ota_bluez_api.Ota.Update.State.{returned}
use bt_ota_bluez_api.Ota.Update.Whole.{packets}
use bt_ota_bluez_api.Ota.Update.SameImage.{AllWithin}
use bt_ota_bluez_api.Ota.Update.Complete.{bytes_of, schedule, ota_update_completes}
use bt_ota_bluez_api.Ota.Update.Sender.{Steps, sender_of}
use bt_ota_bluez_api.Ota.Update.Promise.{opening, ota_update-Steps}
use bt_ota_bluez_api.Ota.Update.Tests.{
  image, updater, system, name, storage, start_success, data_unneeded, go_on, waiting,
}

-- The system that a run leads to.
abbrev reached : Option System → System
reached none = system
reached (some s) = s

-- Both commands are sent, and the device answers both.
abbrev whole_run : List Turn
whole_run =
    go_on
    ∷ go_on
    ∷ go_on
    ∷ reader_turn (read_bytes start_success)
    ∷ go_on
    ∷ go_on
    ∷ go_on
    ∷ go_on
    ∷ reader_turn (read_bytes data_unneeded)
    ∷ go_on
    ∷ []

abbrev first : System
unfolding ota_start on_open read_fw
first = reached (ota_start (some name) none storage updater true system)

abbrev last : System
unfolding run turn update_step next_cmd begin_cmd copy_cmd note_data_cmd fill_crc retry write
    hid_write poll leave reader_step read_round on_read on_response copy_response seq_of first
last = reached (run unsigned_char whole_run first)

started : ota_start (some name) none storage updater true system ≡ some first
unfolding ota_start on_open read_fw
started = refl

ran : run unsigned_char whole_run first ≡ some last
unfolding run turn update_step next_cmd begin_cmd copy_cmd note_data_cmd fill_crc retry write
    hid_write poll leave reader_step read_round on_read on_response copy_response seq_of first
ran = refl

-- The packets, the last one first.
last_wire :
    last.wire
    ≡ (0x52 ∷ 0xf0 ∷ 8 ∷ 0 ∷ 0 ∷ 2 ∷ 5 ∷ 0 ∷ 9 ∷ [])
      ∷ (0x52 ∷ 0xf0 ∷ 7 ∷ 0 ∷ 0 ∷ 1 ∷ 0 ∷ 0 ∷ [])
      ∷ []
unfolding last first
last_wire = refl

abbrev by_data : List Turn
by_data = reader_turn (read_bytes data_unneeded) ∷ go_on ∷ []

abbrev completed : System
unfolding run turn update_step poll reader_step read_round on_read on_response copy_response seq_of
completed = reached (run unsigned_char by_data waiting)

completes : run unsigned_char by_data waiting ≡ some completed
unfolding run turn update_step poll reader_step read_round on_read on_response copy_response seq_of
completes = refl

success_needs_completion_example : Reading Completes unsigned_char by_data waiting
unfolding completed
success_needs_completion_example =
    success_needs_completion unsigned_char by_data waiting completed
      (λ e. absurd (ground arith), λ e. absurd (ground arith)) completes refl

ota_update-Steps_example :
    Steps unsigned_char first.updater.fw_data_buf whole_run
      (opening (some image))
      []
      (sender_of last)
      last.wire
ota_update-Steps_example =
    ota_update-Steps name none storage updater true unsigned_char whole_run system first last refl
      started ran

-- The response to the finish command.
abbrev finish_success : List ℕ
finish_success = 0 ∷ 2 ∷ 0 ∷ 3 ∷ 0 ∷ 0 ∷ 0 ∷ []

image-AllWithin : AllWithin (bytes_of image) 15 2
image-AllWithin zero h = (omega arith, omega arith, omega arith)
image-AllWithin (suc zero) h = (omega arith, omega arith, omega arith)
image-AllWithin (suc (suc n)) h = absurd (omega arith)

ota_update_completes_example :
    (s : System) × (s' : System) × (ota_start (some name) none storage updater true system ≡ some s)
    × (run unsigned_char
          (schedule name none storage updater unsigned_char 8 system image
            (start_success ∷ [])
            finish_success)
          s
        ≡ some s')
    × (s'.updater.pc ≡ returned)
    × (s'.wire ≡ packets (bytes_of image) 2)
    × (s'.globals.total_cmd_num ≡ 2)
ota_update_completes_example =
    ota_update_completes name none storage updater unsigned_char 8 system image (start_success ∷ [])
      finish_success refl (omega arith) refl refl (omega arith) image-AllWithin
      ((refl, refl, inl refl), tt) (refl, refl, refl)
