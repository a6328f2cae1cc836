-- ===== src/Ota/Update/Tests/Late.antt =====
-- The theorems on interrupted rounds: a second response to the start command of the image.
use bt_ota_bluez_api.Common.{
  ◌≡◌, ◌+◌, refl, inl, true, Option, none, some, List, [], ◌∷◌, arith, unsigned_char, ◌>>=◌,
}
use bt_ota_bluez_api.Ota.Update.Start.{ota_start, read_fw, on_open}
use bt_ota_bluez_api.Common.Int.{pos}
use bt_ota_bluez_api.Ota.Protocol.{Stage, stage_next_cmd, stage_retrying}
use bt_ota_bluez_api.Ota.Reader.{read_bytes}
use bt_ota_bluez_api.Ota.Update.State.{System, wait_response, send_next_cmd}
use bt_ota_bluez_api.Ota.Update.Steps.{update_turn, run, poll, reader_step}
use bt_ota_bluez_api.Ota.Update.Late.{judge, assign, go_on}
use bt_ota_bluez_api.Ota.Update.Late.Round.{interrupted_round}
use bt_ota_bluez_api.Ota.Update.Late.Heard.{Heard, interrupted_advance_needs_answer}
use mathlib.Core.Option.{none-ne-some}
use bt_ota_bluez_api.Ota.Update.Late.Second.{second_response}
use bt_ota_bluez_api.Ota.Reader.{on_read, on_response, copy_response, seq_of}
use bt_ota_bluez_api.Ota.Writer.{hid_write}
use bt_ota_bluez_api.Ota.Update.Command.{begin_cmd, copy_cmd, note_data_cmd, fill_crc}
use bt_ota_bluez_api.Ota.Update.Steps.{update_step, next_cmd, retry, write}
use bt_ota_bluez_api.Ota.Update.Packets.{Sent}
use bt_ota_bluez_api.Ota.Update.Late.Machine.{Moment, step, hear, settle, Threads, moment, moments}
use bt_ota_bluez_api.Ota.Update.Late.Safe.{ota_update_interrupted-Sent}
use bt_ota_bluez_api.Ota.Update.Tests.{
  globals, updater, system, name, storage, start_success, waiting,
}

-- The start command was sent, and a first response to it came.
abbrev accepted : System
accepted = record system {
  globals = record globals { ota_stage = stage_next_cmd; total_cmd_num = 1 };
  updater = record updater { pc = wait_response; send_count = 1; current_cmd_len = 7 };
}

-- The same before the first response, at the write of the command.
abbrev sent : System
sent = record accepted {
  globals = record globals { ota_stage = stage_retrying; total_cmd_num = 1 };
}

interrupted_round_example :
    (do
      (m, stage) ← judge unsigned_char start_success sent
      m' ← go_on unsigned_char (pos 0 ∷ pos 0 ∷ []) m
      some (assign stage m'))
    ≡ (do
      s' ← go_on unsigned_char (pos 0 ∷ pos 0 ∷ []) sent
      reader_step unsigned_char (read_bytes start_success) s')
interrupted_round_example =
    interrupted_round unsigned_char start_success (pos 0 ∷ pos 0 ∷ []) sent refl refl

second_response_example :
    (m : System) × (stage : Option Stage) × (s' : System) × (judge unsigned_char start_success
        accepted
      ≡ some (m, stage))
    × (run unsigned_char
          (update_turn (pos 0)
            ∷ update_turn (pos 0)
            ∷ update_turn (pos 0)
            ∷ update_turn (pos 9)
            ∷ [])
          m
        ≡ some s')
    × (s'.updater.pc ≡ wait_response)
    × (s'.globals.total_cmd_num ≡ m.globals.total_cmd_num + 1)
    × (s'.globals.ota_stage ≡ stage_retrying)
    × ((poll (assign stage s')).updater.pc ≡ send_next_cmd)
second_response_example =
    second_response unsigned_char start_success accepted (pos 0) (pos 0) (pos 0) (pos 9)
      (refl, refl, inl refl) refl refl (omega arith) refl (omega arith) (omega arith) (omega arith)
      (omega arith) (omega arith) refl

-- The start command is sent, its response heard, polled over and assigned, and the next command begun.
abbrev interleaved : List Moment
interleaved =
    step (pos 8)
    ∷ step (pos 8)
    ∷ step (pos 8)
    ∷ hear (read_bytes start_success)
    ∷ step (pos 8)
    ∷ settle
    ∷ step (pos 8)
    ∷ step (pos 8)
    ∷ []

abbrev at_first : Option System → System
at_first none = system
at_first (some s) = s

abbrev reached : Option Threads → Threads
reached none = (system, none)
reached (some t) = t

abbrev first : System
unfolding ota_start on_open read_fw
first = at_first (ota_start (some name) none storage updater true system)

started : ota_start (some name) none storage updater true system ≡ some first
unfolding ota_start on_open read_fw
started = refl

abbrev interrupted : Threads
unfolding moments moment judge update_step next_cmd begin_cmd copy_cmd note_data_cmd fill_crc retry
    write hid_write poll on_read on_response copy_response seq_of first
interrupted = reached (moments unsigned_char interleaved (first, none))

interleaves : moments unsigned_char interleaved (first, none) ≡ some interrupted
unfolding moments moment judge update_step next_cmd begin_cmd copy_cmd note_data_cmd fill_crc retry
    write hid_write poll on_read on_response copy_response seq_of first
interleaves = refl

-- The second command was begun.
begun_two : interrupted.0.globals.total_cmd_num ≡ 2
unfolding interrupted
begun_two = refl

ota_update_interrupted-Sent_example : Sent first.updater.fw_data_buf interrupted.0
ota_update_interrupted-Sent_example =
    ota_update_interrupted-Sent name none storage updater true unsigned_char interleaved system
      first interrupted refl started interleaves

-- A late response to the start command, while the data command is waited for.
abbrev late_start : List Moment
late_start = hear (read_bytes start_success) ∷ step (pos 8) ∷ settle ∷ step (pos 8) ∷ []

abbrev gone_on : Threads
unfolding moments moment judge update_step poll on_read on_response copy_response seq_of
gone_on = reached (moments unsigned_char late_start (waiting, none))

goes_on : moments unsigned_char late_start (waiting, none) ≡ some gone_on
unfolding moments moment judge update_step poll on_read on_response copy_response seq_of
goes_on = refl

interrupted_advance_needs_answer_example : Heard unsigned_char late_start (waiting, none)
unfolding gone_on
interrupted_advance_needs_answer_example =
    interrupted_advance_needs_answer unsigned_char late_start (waiting, none) gone_on
      (
        (λ e. absurd (ground arith), λ e. absurd (ground arith)),
        λ e. absurd (none-ne-some (some stage_next_cmd) e),
      )
      goes_on refl
