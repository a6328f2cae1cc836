-- ===== src/Ota/Update/Steps.antt =====
-- The rest of `ota_update`: FLAG_RETRY_CMD, the write, the waiting loop and the two exits, and the
-- machine that the two threads make.
use bt_ota_bluez_api.Common.{
  ℕ, suc, ◌+◌, false, Option, some, List, [], ◌∷◌, ltb, if◌then◌else◌, slice, CharSign, ◌>>=◌,
}
use bt_ota_bluez_api.Common.Int.{ℤ, is_negative}
use bt_ota_bluez_api.Hid.Sockets.{quit_serv, quit_thread}
use bt_ota_bluez_api.Ota.Protocol.{
  Stage, stage_next_cmd, stage_err_retry, stage_complete, stage_retrying, ota_wait_time,
}
use bt_ota_bluez_api.Ota.Reader.{ReadResult, read_round}
use bt_ota_bluez_api.Ota.Writer.{hid_write}
use bt_ota_bluez_api.Ota.Update.State.{
  Pc, send_next_cmd, retry_cmd, write_cmd, wait_response, ota_fail, ota_success, returned, Updater,
  System,
}
use bt_ota_bluez_api.Ota.Update.Command.{begin_cmd}

-- FLAG_RETRY_CMD up to `hidWrite`: a command is sent three times at most.
unfoldable pub retry : System → System
retry s = record s {
  globals = record s.globals { ota_stage = stage_retrying };
  updater = record s.updater {
    pc = if ltb 3 (s.updater.send_count + 1) then ota_fail else write_cmd;
    send_count = s.updater.send_count + 1;
    wait_count = 0;
  };
}

-- The packet that is sent: the report type and the command, the checksum left out.
abbrev pub packet : Updater → List ℕ
packet u = slice u.cmd_buf 0 (suc u.current_cmd_len)

unfoldable pub write : CharSign → ℤ → System → Option System
write sign res s = do
  ret ← hid_write sign s.globals.is_verbose_log (packet s.updater) res
  some (record s {
    updater = record s.updater { pc = if is_negative ret then ota_fail else wait_response };
    wire = if is_negative res then s.wire else packet s.updater ∷ s.wire;
  })

-- Where the waiting loop goes for the stage that it finds.
abbrev pub after_poll : Stage → Pc
after_poll stage_next_cmd = send_next_cmd
after_poll stage_err_retry = retry_cmd
after_poll stage_complete = ota_success
after_poll _ = wait_response

-- One round of the waiting loop.
unfoldable pub poll : System → System
poll s = record s {
  updater = record s.updater {
    pc =
        if ltb (s.updater.wait_count + 1) ota_wait_time
        then after_poll s.globals.ota_stage
        else retry_cmd;
    wait_count = s.updater.wait_count + 1;
  };
}

-- FLAG_OTA_FAIL and FLAG_OTA_SUCCESS: both do the same, and both return 0.
unfoldable pub leave : System → System
unfolding quit_thread quit_serv
leave s = record s {
  globals = record s.globals { flag_read = false };
  updater = record s.updater { pc = returned };
  sockets = (quit_serv (quit_thread s.sockets)).0;
}

unfoldable pub next_cmd : CharSign → System → Option System
next_cmd sign s = do
  (u, g) ← begin_cmd sign s.updater s.globals
  some (record s { updater = u; globals = g })

-- The code from where it stands up to the next place where it may be interrupted. `res` is what
-- `write` returns, if it is called.
abbrev pub dispatch : Pc → CharSign → ℤ → System → Option System
dispatch send_next_cmd sign res s = next_cmd sign s
dispatch retry_cmd sign res s = some (retry s)
dispatch write_cmd sign res s = write sign res s
dispatch wait_response sign res s = some (poll s)
dispatch ota_fail sign res s = some (leave s)
dispatch ota_success sign res s = some (leave s)
dispatch returned sign res s = some s

unfoldable pub update_step : CharSign → ℤ → System → Option System
update_step sign res s = dispatch s.updater.pc sign res s

-- A round of the reading thread, if it runs.
unfoldable pub reader_step : CharSign → ReadResult → System → Option System
unfolding read_round
reader_step sign r s =
    if s.reader_running
    then (do
      (g, running) ← read_round sign r s.globals
      some (record s { globals = g; reader_running = running }))
    else some s

-- Which thread runs next, and what its system call gives.
pub data Turn : Type 0 where
  update_turn : ℤ → Turn
  reader_turn : ReadResult → Turn

unfoldable pub turn : CharSign → Turn → System → Option System
turn sign (update_turn res) s = update_step sign res s
turn sign (reader_turn r) s = reader_step sign r s

unfoldable pub run : CharSign → List Turn → System → Option System
run sign [] s = some s
run sign (t ∷ ts) s = do s' ← turn sign t s; run sign ts s'
