-- ===== src/Ota/Update/Answers.antt =====
-- What an answer of the device brings about at once.
use bt_ota_bluez_api.Common.{
  ℕ, ◌+◌, ◌<◌, ◌≡◌, refl, ap, ◌∙◌, true, false, some, List, [], ◌∷◌, arith, CharSign, lt→ltb,
}
use bt_ota_bluez_api.Common.Int.{ℤ}
use bt_ota_bluez_api.Ota.Globals.{Globals}
use bt_ota_bluez_api.Ota.Protocol.{stage_next_cmd, stage_complete}
use bt_ota_bluez_api.Ota.Reader.{read_bytes, read_round, on_read, on_response, copy_response}
use bt_ota_bluez_api.Ota.Update.State.{wait_response, send_next_cmd, ota_success, System}
use bt_ota_bluez_api.Ota.Update.Cause.{Accepts, Completes}
use bt_ota_bluez_api.Ota.Update.Steps.{
  update_turn, reader_turn, turn, update_step, reader_step, run, poll, after_poll,
}

-- The update waits, with time left, and the reading thread listens; nothing is logged.
abbrev pub Waiting : System → Type 0
Waiting s =
    (s.updater.pc ≡ wait_response)
    × (s.updater.wait_count + 1 < 750)
    × (s.reader_running ≡ true)
    × (s.globals.flag_read ≡ true)
    × (s.globals.is_verbose_log ≡ false)

-- The globals when the response has been handled.
abbrev pub answered : CharSign → List ℕ → Globals → Globals
answered sign bytes g = on_response sign (record g { rsp_cmd = copy_response 6 0 bytes })

pub reader_step-answered :
    (sign : CharSign) (bytes : List ℕ) (s : System)
    → Waiting s
    → reader_step sign (read_bytes bytes) s
      ≡ some (record s { globals = answered sign bytes s.globals })
unfolding reader_step read_round on_read
reader_step-answered sign bytes s w = ground arith

pub Accepts-next :
    (sign : CharSign) (bytes : List ℕ) (g : Globals)
    → Accepts sign bytes g
    → (answered sign bytes g).ota_stage ≡ stage_next_cmd
unfolding on_response copy_response
Accepts-next sign bytes g a = ground arith

pub Completes-complete :
    (sign : CharSign) (bytes : List ℕ) (g : Globals)
    → Completes sign bytes g
    → (answered sign bytes g).ota_stage ≡ stage_complete
unfolding on_response copy_response
Completes-complete sign bytes g a = ground arith

-- A turn of each thread: where the update then stands is what the stage says.
answered_then_polled :
    (sign : CharSign) (bytes : List ℕ) (res : ℤ) (s : System)
    → Waiting s
    → (s' : System) × (run sign (reader_turn (read_bytes bytes) ∷ update_turn res ∷ []) s ≡ some s')
      × (s'.updater.pc ≡ after_poll (answered sign bytes s.globals).ota_stage)
unfolding run turn update_step poll
answered_then_polled sign bytes res s w =
    let (at, time, _, _, _) = w in
    (
      poll (record s { globals = answered sign bytes s.globals }),
      rw (reader_step-answered sign bytes s w, at) refl,
      rw (lt→ltb _ _ time) refl,
    )

-- While the update waits with time left, the next round of the reading thread, if it reads an
-- answer, and the next poll decide: an accepted answer leads to the next command, and one that
-- completes leads to FLAG_OTA_SUCCESS. Which command is waited for makes no difference to an answer
-- to a start command.
pub answer_decides :
    (sign : CharSign) (bytes : List ℕ) (res : ℤ) (s : System)
    → Waiting s
    → (s' : System) × (run sign (reader_turn (read_bytes bytes) ∷ update_turn res ∷ []) s ≡ some s')
      × (Accepts sign bytes s.globals → s'.updater.pc ≡ send_next_cmd)
      × (Completes sign bytes s.globals → s'.updater.pc ≡ ota_success)
answer_decides sign bytes res s w =
    let (s', runs, at) = answered_then_polled sign bytes res s w in
    (
      s',
      runs,
      λ a. at ∙ ap after_poll (Accepts-next sign bytes s.globals a),
      λ a. at ∙ ap after_poll (Completes-complete sign bytes s.globals a),
    )
