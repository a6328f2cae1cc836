-- ===== src/Ota/Update/Sender.antt =====
-- What the sender promises, without the code: commands are taken in turn, each is sent three times
-- at most, and only what the device says, a write that fails or the time that has gone by moves the
-- sender on. `ota_update` is compared with it, turn by turn.
use bt_ota_bluez_api.Common.{
  ℕ, suc, ◌+◌, ◌-◌, ◌≤◌, ◌<◌, ◌≡◌, ◌≢◌, ◌⊎◌, true, false, List, [], ◌∷◌, ltb, ◌==◌, if◌then◌else◌,
  CharSign, promote,
}
use bt_ota_bluez_api.Common.Int.{ℤ, is_negative}
use bt_ota_bluez_api.Ota.Protocol.{
  Stage, stage_next_cmd, stage_err_retry, stage_complete, start_cmd_code, data_cmd_code,
  finish_cmd_code, success, no_need_update,
}
use bt_ota_bluez_api.Ota.Reader.{ReadResult, read_bytes, buf_at, seq_of}
use bt_ota_bluez_api.Ota.Update.State.{
  Pc, send_next_cmd, retry_cmd, write_cmd, wait_response, ota_fail, ota_success, returned, System,
}
use bt_ota_bluez_api.Ota.Update.Command.{cmd_len_at}
use bt_ota_bluez_api.Ota.Update.Steps.{Turn, update_turn, reader_turn}
use bt_ota_bluez_api.Ota.Update.Transcript.{offset, framed_cmd}

-- What the device has said of the command that is sent.
pub data Answer : Type 0 where
  silence go_on again done : Answer

-- A byte of command `n`; zero past its end.
abbrev pub byte_of : (ℕ → ℕ) → ℕ → ℕ → ℕ
byte_of fw n k = if ltb k (cmd_len_at fw (offset fw n)) then fw (offset fw n + k) else 0

-- The number that a data response to command `n` must have: that of the command, if it is a data
-- command, and 0 if not.
abbrev pub number_of : CharSign → (ℕ → ℕ) → ℕ → ℕ
number_of sign fw n =
    if promote sign (byte_of fw n 4) == data_cmd_code
    then seq_of sign (byte_of fw n 5) (byte_of fw n 6)
    else 0

-- What a response says when the number `expected` is waited for.
pub data Says (sign : CharSign) (expected : ℕ) (bytes : List ℕ) : Answer → Type 0 where
  success_of :
      buf_at bytes 1 ≡ 2
      → buf_at bytes 6 ≡ success
      → (buf_at bytes 3 ≡ start_cmd_code)
        ⊎ ((buf_at bytes 3 ≡ data_cmd_code)
            × (seq_of sign (buf_at bytes 4) (buf_at bytes 5) ≡ expected))
      → Says sign expected bytes go_on
  end_of :
      buf_at bytes 1 ≡ 2
      → ((buf_at bytes 3 ≡ finish_cmd_code) × (buf_at bytes 6 ≡ success))
        ⊎ ((buf_at bytes 6 ≡ no_need_update)
            × (((buf_at bytes 3 ≡ start_cmd_code)
                  ⊎ ((buf_at bytes 3 ≡ data_cmd_code)
                      × (seq_of sign (buf_at bytes 4) (buf_at bytes 5) ≡ expected)))
                ⊎ (buf_at bytes 3 ≡ finish_cmd_code)))
      → Says sign expected bytes done
  refusal_of :
      buf_at bytes 1 ≡ 2
      → ((buf_at bytes 3 ≡ data_cmd_code)
          × (seq_of sign (buf_at bytes 4) (buf_at bytes 5) ≢ expected))
        ⊎ ((buf_at bytes 6 ≢ success) × (buf_at bytes 6 ≢ no_need_update))
      → Says sign expected bytes again

-- Before command `n`; with command `n` that has been sent `k` times, to be sent, about to be written
-- or waited for, with the answer heard since it was to be sent and the polls since then; and at the end.
pub data Sender : Type 0 where
  next : ℕ → Sender
  due : ℕ → ℕ → Sender
  armed waiting : ℕ → ℕ → Answer → ℕ → Sender
  failed finished closed : Sender

-- A step of the sender for the image `fw` in a turn, with the packets that are out before and after
-- it. A turn of the update is one step, of which there is one kind for each place and answer; in a
-- turn of the reading thread an answer may be heard.
pub data Step (sign : CharSign) (fw : ℕ → ℕ)
    : Turn → Sender → List (List ℕ) → Sender → List (List ℕ) → Type 0 where
  begin :
      {res : ℤ} {n : ℕ} {w : List (List ℕ)} → Step sign fw (update_turn res) (next n) w (due n 0) w
  arm :
      {res : ℤ} {n k : ℕ} {w : List (List ℕ)}
      → k < 3
      → Step sign fw (update_turn res) (due n k) w (armed n k silence 0) w
  exhaust :
      {res : ℤ} {n : ℕ} {w : List (List ℕ)} → Step sign fw (update_turn res) (due n 3) w failed w
  send :
      {res : ℤ} {n k t : ℕ} {a : Answer} {w : List (List ℕ)}
      → is_negative res ≡ false
      → Step sign fw
          (update_turn res)
          (armed n k a t)
          w
          (waiting n (suc k) a t)
          (framed_cmd fw n ∷ w)
  break :
      {res : ℤ} {n k t : ℕ} {a : Answer} {w : List (List ℕ)}
      → is_negative res ≡ true
      → Step sign fw (update_turn res) (armed n k a t) w failed w
  wait :
      {res : ℤ} {n k t : ℕ} {w : List (List ℕ)}
      → suc t < 750
      → Step sign fw (update_turn res) (waiting n k silence t) w (waiting n k silence (suc t)) w
  confirm :
      {res : ℤ} {n k t : ℕ} {w : List (List ℕ)}
      → suc t < 750
      → Step sign fw (update_turn res) (waiting n k go_on t) w (next (suc n)) w
  repeat :
      {res : ℤ} {n k t : ℕ} {w : List (List ℕ)}
      → suc t < 750
      → Step sign fw (update_turn res) (waiting n k again t) w (due n k) w
  finish :
      {res : ℤ} {n k t : ℕ} {w : List (List ℕ)}
      → suc t < 750
      → Step sign fw (update_turn res) (waiting n k done t) w finished w
  lapse :
      {res : ℤ} {n k t : ℕ} {a : Answer} {w : List (List ℕ)}
      → 750 ≤ suc t
      → Step sign fw (update_turn res) (waiting n k a t) w (due n k) w
  close_failed : {res : ℤ} {w : List (List ℕ)} → Step sign fw (update_turn res) failed w closed w
  close_finished :
      {res : ℤ} {w : List (List ℕ)} → Step sign fw (update_turn res) finished w closed w
  rest : {res : ℤ} {w : List (List ℕ)} → Step sign fw (update_turn res) closed w closed w
  hear_armed :
      {n k t : ℕ} {a b : Answer} {bytes : List ℕ} {w : List (List ℕ)}
      → Says sign (number_of sign fw n) bytes b
      → Step sign fw (reader_turn (read_bytes bytes)) (armed n k a t) w (armed n k b t) w
  hear_waiting :
      {n k t : ℕ} {a b : Answer} {bytes : List ℕ} {w : List (List ℕ)}
      → Says sign (number_of sign fw n) bytes b
      → Step sign fw (reader_turn (read_bytes bytes)) (waiting n k a t) w (waiting n k b t) w
  unheard : {r : ReadResult} {a : Sender} {w : List (List ℕ)} → Step sign fw (reader_turn r) a w a w

-- One step for each turn.
pub data Steps (sign : CharSign) (fw : ℕ → ℕ)
    : List Turn → Sender → List (List ℕ) → Sender → List (List ℕ) → Type 0 where
  stay : {a : Sender} {w : List (List ℕ)} → Steps sign fw [] a w a w
  go :
      {t : Turn} {ts : List Turn} {a b c : Sender} {u v w : List (List ℕ)}
      → Step sign fw t a u b v
      → Steps sign fw ts b v c w
      → Steps sign fw (t ∷ ts) a u c w

-- The answer that `OTAStage` stands for.
abbrev pub answer_of : Stage → Answer
answer_of stage_next_cmd = go_on
answer_of stage_err_retry = again
answer_of stage_complete = done
answer_of _ = silence

-- The sender that a place of the code, the count of commands, the counts of sends and of polls and the
-- stage stand for. Before the write the count of sends is ahead.
abbrev pub sender_at : Pc → ℕ → ℕ → ℕ → Stage → Sender
sender_at send_next_cmd total sends waits stage = next total
sender_at retry_cmd total sends waits stage = due (total - 1) sends
sender_at write_cmd total sends waits stage = armed (total - 1) (sends - 1) (answer_of stage) waits
sender_at wait_response total sends waits stage = waiting (total - 1) sends (answer_of stage) waits
sender_at ota_fail total sends waits stage = failed
sender_at ota_success total sends waits stage = finished
sender_at returned total sends waits stage = closed

abbrev pub sender_of : System → Sender
sender_of s =
    sender_at s.updater.pc s.globals.total_cmd_num s.updater.send_count s.updater.wait_count
      s.globals.ota_stage
