-- ===== src/Ota/Update/Cause.antt =====
-- What only a response of the device can bring about.
use bt_ota_bluez_api.Common.{ℕ, ◌≡◌, ◌≢◌, sym, ap, ◌⊎◌, some, List, ◌∙◌, CharSign}
use bt_ota_bluez_api.Ota.Globals.{Globals}
use bt_ota_bluez_api.Ota.Protocol.{
  start_cmd_code, data_cmd_code, finish_cmd_code, success, no_need_update, stage_next_cmd,
  stage_complete,
}
use bt_ota_bluez_api.Ota.Reader.{buf_at, seq_of, on_read}
use bt_ota_bluez_api.Ota.Reader.{copy_response}
use bt_ota_bluez_api.Ota.Reader.Laws.{on_response_next, on_response_complete, on_read-eq-some}
use bt_ota_bluez_api.Ota.Update.State.{send_next_cmd, ota_success, System}

-- A response that lets the update go on to the next command.
abbrev pub Accepts : CharSign → List ℕ → Globals → Type 0
Accepts sign bytes g =
    (buf_at bytes 1 ≡ 2)
    × (buf_at bytes 6 ≡ success)
    × ((buf_at bytes 3 ≡ start_cmd_code)
        ⊎ ((buf_at bytes 3 ≡ data_cmd_code)
            × (seq_of sign (buf_at bytes 4) (buf_at bytes 5) ≡ g.current_data_seq)))

-- A response that ends the update as a success.
abbrev pub Completes : CharSign → List ℕ → Globals → Type 0
Completes sign bytes g =
    (buf_at bytes 1 ≡ 2)
    × (((buf_at bytes 3 ≡ finish_cmd_code) × (buf_at bytes 6 ≡ success))
        ⊎ ((buf_at bytes 6 ≡ no_need_update)
            × (((buf_at bytes 3 ≡ start_cmd_code)
                  ⊎ ((buf_at bytes 3 ≡ data_cmd_code)
                      × (seq_of sign (buf_at bytes 4) (buf_at bytes 5) ≡ g.current_data_seq)))
                ⊎ (buf_at bytes 3 ≡ finish_cmd_code))))

-- The update is not about to begin a command.
abbrev pub NotNext : System → Type 0
NotNext s = (s.updater.pc ≢ send_next_cmd) × (s.globals.ota_stage ≢ stage_next_cmd)

-- The update is not about to end as a success.
abbrev pub NotComplete : System → Type 0
NotComplete s = (s.updater.pc ≢ ota_success) × (s.globals.ota_stage ≢ stage_complete)

-- The globals after the copy of the response, before it is handled.
abbrev with_response : List ℕ → Globals → Globals
with_response bytes g = record g { rsp_cmd = copy_response 6 0 bytes }

pub on_read_next :
    (sign : CharSign) (bytes : List ℕ) (g g' : Globals)
    → on_read sign bytes g ≡ some g'
    → g.ota_stage ≢ stage_next_cmd
    → g'.ota_stage ≡ stage_next_cmd
    → Accepts sign bytes g
unfolding copy_response
on_read_next sign bytes g g' h n e =
    on_response_next sign (with_response bytes g) n
      (ap (λ (x : Globals). x.ota_stage) (sym (on_read-eq-some sign bytes g g' h)) ∙ e)

pub on_read_complete :
    (sign : CharSign) (bytes : List ℕ) (g g' : Globals)
    → on_read sign bytes g ≡ some g'
    → g.ota_stage ≢ stage_complete
    → g'.ota_stage ≡ stage_complete
    → Completes sign bytes g
unfolding copy_response
on_read_complete sign bytes g g' h n e =
    on_response_complete sign (with_response bytes g) n
      (ap (λ (x : Globals). x.ota_stage) (sym (on_read-eq-some sign bytes g g' h)) ∙ e)
