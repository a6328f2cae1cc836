-- ===== src/Ota/Update/Late.antt =====
-- A round of the reading thread in two parts: `ota_update` may run before `OTAStage` is assigned.
pub mod Laws
pub mod Round
pub mod Second
pub mod Machine
pub mod Keeps
pub mod Safe
pub mod Heard
use bt_ota_bluez_api.Common.{
  ℕ, ◌≡◌, refl, ap, ◌∙◌, inl, inr, Bool, true, false, ◌&&◌, ◌||◌, Option, none, some, List, [], ◌∷◌,
  ◌==◌, if◌then◌else◌, get_or, CharSign, promote, Bool-cases, Option-cases, ◌>>=◌, ◌>>◌, check,
}
use bt_ota_bluez_api.Common.Int.{ℤ}
use bt_ota_bluez_api.Ota.Globals.{Globals}
use bt_ota_bluez_api.Ota.Protocol.{
  Stage, f_rid, f_r_cmd, start_cmd_code, data_cmd_code, finish_cmd_code,
}
use bt_ota_bluez_api.Ota.Reader.{read_bytes, read_round, on_read, on_response}
use bt_ota_bluez_api.Ota.Update.State.{
  Pc, send_next_cmd, retry_cmd, write_cmd, wait_response, ota_fail, ota_success, returned, System,
}
use bt_ota_bluez_api.Ota.Update.Steps.{retry, write, poll, dispatch, update_step, reader_step}

-- Whether `OTAStage` is assigned for the response in `rsp_cmd`.
abbrev pub assigns : CharSign → Globals → Bool
assigns sign g =
    let rid = promote sign (get_or g.rsp_cmd f_rid 0) in
    let cmd = promote sign (get_or g.rsp_cmd f_r_cmd 0) in
    (rid == 0x02) && ((cmd == start_cmd_code) || (cmd == data_cmd_code) || (cmd == finish_cmd_code))

-- The first part: the copy, `OTAStatus` and the comparisons. The stage is what the second part is to
-- assign, if anything.
unfoldable pub judge : CharSign → List ℕ → System → Option (System × Option Stage)
judge sign bytes s = do
  g ← on_read sign bytes s.globals
  some (
    record s { globals = record g { ota_stage = s.globals.ota_stage } },
    if assigns sign g then some g.ota_stage else none,
  )

-- The second part.
abbrev pub assign : Option Stage → System → System
assign none s = s
assign (some stage) s = record s { globals = record s.globals { ota_stage = stage } }

-- A command is sent or waited for.
abbrev pub is_sending : Pc → Bool
is_sending retry_cmd = true
is_sending write_cmd = true
is_sending wait_response = true
is_sending _ = false

-- Steps of the update between the two parts. None begins a command or is an exit.
unfoldable pub go_on : CharSign → List ℤ → System → Option System
go_on sign [] s = some s
go_on sign (res ∷ results) s = do
  check (is_sending s.updater.pc)
  s' ← update_step sign res s
  go_on sign results s'
