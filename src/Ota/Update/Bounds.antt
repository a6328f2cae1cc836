-- ===== src/Ota/Update/Bounds.antt =====
-- The bounds of the counters and of the places, and the state of the channels.
pub mod Command
pub mod Steps
pub mod Turns
use mathlib.Core.Path.{subst}
use mathlib.Core.Option.{none-ne-some, some-injective}
use bt_ota_bluez_api.Common.{
  ℕ, zero, suc, ◌+◌, ◌*◌, ◌/◌, ◌≤◌, ◌<◌, ◌≡◌, refl, sym, ◌∙◌, ap, ◌⊎◌, inl, inr, Bool, true, false,
  ◌&&◌, Option, none, some, List, [], ◌∷◌, arith, ltb, ltb→lt, leb, ◌==◌, if◌then◌else◌, CharSign,
  Bool-cases, Option-cases, update,
}
use bt_ota_bluez_api.Common.Int.{ℤ, is_negative}
use bt_ota_bluez_api.Hid.Sockets.{Sockets, quit_serv, quit_thread}
use bt_ota_bluez_api.Ota.Globals.{Globals}
use bt_ota_bluez_api.Ota.Protocol.{
  Stage, stage_next_cmd, stage_err_retry, stage_complete, ota_wait_time,
}
use bt_ota_bluez_api.Ota.Reader.{ReadResult, read_round, on_read, on_response}
use bt_ota_bluez_api.Ota.Update.State.{
  Pc, send_next_cmd, retry_cmd, write_cmd, wait_response, ota_fail, ota_success, returned,
  fw_data_buf_size, cmd_buf_size, Updater, System,
}
use bt_ota_bluez_api.Ota.Update.Command.{begin_cmd, copy_cmd, note_data_cmd, fill_crc, cmd_len_at}
use bt_ota_bluez_api.Ota.Update.Steps.{
  after_poll, next_cmd, retry, poll, leave, dispatch, update_step, reader_step, Turn, update_turn,
  reader_turn, turn, run,
}
use bt_ota_bluez_api.Ota.Update.Written.{written, write-eq-some}
use bt_ota_bluez_api.Ota.Update.Next.{
  begin_cmd-IsNext, begin_cmd_parts, copy_cmd_again, start, size, blank, cut, recount,
}
use bt_ota_bluez_api.Ota.Update.Order.{next_cmd-eq-some, begun_with}

-- How often the current command may have been sent.
abbrev pub SendsAt : Pc → ℕ → Type 0
SendsAt send_next_cmd n = n ≤ 3
SendsAt retry_cmd n = n ≤ 3
SendsAt write_cmd n = (1 ≤ n) × (n ≤ 3)
SendsAt wait_response n = (1 ≤ n) × (n ≤ 3)
SendsAt ota_fail n = n ≤ 4
SendsAt ota_success n = (1 ≤ n) × (n ≤ 3)
SendsAt returned n = n ≤ 4

-- How many rounds of the waiting loop may have gone by.
abbrev pub WaitsAt : Pc → ℕ → Type 0
WaitsAt write_cmd n = n < ota_wait_time
WaitsAt wait_response n = n < ota_wait_time
WaitsAt _ n = n ≤ ota_wait_time

-- The channels are closed on the way out, and `flagRead` is cleared.
abbrev pub channels_at : Sockets → Pc → Sockets
channels_at from returned = (quit_serv (quit_thread from)).0
channels_at from _ = from

abbrev pub ListensAt : Pc → Bool → Type 0
ListensAt returned listens = listens ≡ false
ListensAt _ listens = Unit

abbrev pub ProgressOk : Globals → Type 0
ProgressOk g = (g.num2 ≤ 100) × (g.num2 ≤ g.num1) × (g.num1 ≤ g.total_cmd_num)

abbrev pub PlaceOk : Updater → Type 0
PlaceOk u = (u.current_cmd_idx + u.current_cmd_len ≤ fw_data_buf_size) × (u.current_cmd_len ≤ 1021)

-- `from` are the channels that the update was started with.
pub record IsBounded (from : Sockets) (s : System) : Type 0 where
  pub sends : SendsAt s.updater.pc s.updater.send_count
  pub waits : WaitsAt s.updater.pc s.updater.wait_count
  pub progress : ProgressOk s.globals
  pub place : PlaceOk s.updater
  pub listens : ListensAt s.updater.pc s.globals.flag_read
  pub channels : s.sockets ≡ channels_at from s.updater.pc
