-- ===== src/Ota/Update/Late/Machine.antt =====
-- The two threads as one machine in which a round of the reading thread may be interrupted before
-- `OTAStage` is assigned.
use bt_ota_bluez_api.Common.{
  ◌&&◌, Option, none, some, List, [], ◌∷◌, if◌then◌else◌, CharSign, ◌>>=◌,
}
use bt_ota_bluez_api.Common.Int.{ℤ}
use bt_ota_bluez_api.Ota.Protocol.{Stage}
use bt_ota_bluez_api.Ota.Reader.{ReadResult, read_error, read_bytes}
use bt_ota_bluez_api.Ota.Update.State.{System}
use bt_ota_bluez_api.Ota.Update.Steps.{update_step, reader_step}
use bt_ota_bluez_api.Ota.Update.Late.{judge, assign}

-- A step of the update, the start of a round of the reading thread, or its end.
pub data Moment : Type 0 where
  step : ℤ → Moment
  hear : ReadResult → Moment
  settle : Moment

-- The system, and what the reading thread is to assign if it is within a round.
abbrev pub Threads : Type 0
Threads = System × Option (Option Stage)

-- A thread that is within a round does not start another, and a round that reads nothing, or that
-- is not to be, has no second part.
unfoldable pub moment : CharSign → Moment → Threads → Option Threads
moment sign (step res) (s, pending) = do s' ← update_step sign res s; some (s', pending)
moment sign (hear r) (s, some stage) = some (s, some stage)
moment sign (hear read_error) (s, none) = do s' ← reader_step sign read_error s; some (s', none)
moment sign (hear (read_bytes bytes)) (s, none) =
    if s.reader_running && s.globals.flag_read
    then (do (m, stage) ← judge sign bytes s; some (m, some stage))
    else (do s' ← reader_step sign (read_bytes bytes) s; some (s', none))
moment sign settle (s, none) = some (s, none)
moment sign settle (s, some stage) = some (assign stage s, none)

unfoldable pub moments : CharSign → List Moment → Threads → Option Threads
moments sign [] t = some t
moments sign (now ∷ later) t = do t' ← moment sign now t; moments sign later t'
