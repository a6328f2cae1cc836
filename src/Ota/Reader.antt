-- ===== src/Ota/Reader.antt =====
-- `hidRead` of jni/hidserv.c, the thread that reads the device's responses.
pub mod Laws
pub mod Sequence
use bt_ota_bluez_api.Common.{
  ℕ, zero, suc, ◌+◌, ◌*◌, ◌%◌, ◌^◌, bit_or, Bool, true, false, Option, none, some, List, [], ◌∷◌,
  ◌++◌, ◌==◌, if◌then◌else◌, get_or, CharSign, promote, ◌>>=◌, ◌>>◌,
}
use bt_ota_bluez_api.Common.Hex.{print_hex}
use bt_ota_bluez_api.Ota.Protocol.{
  start_cmd_code, data_cmd_code, finish_cmd_code, success, no_need_update, Stage, stage_err_retry,
  stage_complete, stage_next_cmd, rsp_cmd_len, f_rid, f_r_cmd, f_r_seq0, f_r_seq1, f_r_stat,
}
use bt_ota_bluez_api.Ota.Globals.{Globals}
use bt_ota_bluez_api.Ota.Log.{strcat, sprintf}

-- What `read(intr, buf, 512)` gives: an error, or bytes (none at the end of the stream).
pub data ReadResult : Type 0 where
  read_error : ReadResult
  read_bytes : List ℕ → ReadResult

-- `buf[i]` after `memset(buf, 0, 512)` and the read.
abbrev pub buf_at : List ℕ → ℕ → ℕ
buf_at bytes i = get_or bytes i 0

-- `rsp_cmd[index] = buf[index + 1]` for the rounds left.
unfoldable pub copy_response : ℕ → ℕ → List ℕ → List ℕ
copy_response zero index bytes = []
copy_response (suc left) index bytes =
    buf_at bytes (index + 1) ∷ copy_response left (suc index) bytes

-- `"0x%02X "`.
unfoldable pub dump_item : CharSign → ℕ → List ℕ
unfolding print_hex
dump_item sign c = b'0' ∷ b'x' ∷ (print_hex 2 (promote sign c) ++ (b' ' ∷ []))

-- The verbose log of a response: `tmp2` has 10 bytes and `tmpWrite` has `rsp_cmd_len * 5`.
unfoldable pub dump_response : CharSign → List ℕ → List ℕ → Option (List ℕ)
unfolding dump_item
dump_response sign [] text = some text
dump_response sign (c ∷ cs) text = do
  tmp2 ← sprintf 10 (dump_item sign c)
  text' ← strcat (rsp_cmd_len * 5) text tmp2
  dump_response sign cs text'

-- The two low bytes of a sequence number, as `lo | (hi << 8)` on promoted chars.
unfoldable pub seq_of : CharSign → ℕ → ℕ → ℕ
seq_of sign lo hi = bit_or (promote sign lo) (promote sign hi * 2 ^ 8 % 2 ^ 32)

-- The stage that a status leads to, for a response to a start or a data command.
abbrev pub stage_of_status : ℕ → Stage
stage_of_status status =
    if status == success
    then stage_next_cmd
    else if status == no_need_update
    then stage_complete
    else stage_err_retry

-- For a response to a finish command.
abbrev pub finish_stage_of_status : ℕ → Stage
finish_stage_of_status status =
    if status == success
    then stage_complete
    else if status == no_need_update
    then stage_complete
    else stage_err_retry

-- The stage after a response with report id 2, by its command, status and sequence number.
abbrev pub stage_after : ℕ → ℕ → ℕ → Globals → Stage
stage_after cmd status rsp_seq g =
    if cmd == start_cmd_code
    then stage_of_status status
    else if cmd == data_cmd_code
    then (if rsp_seq == g.current_data_seq then stage_of_status status else stage_err_retry)
    else if cmd == finish_cmd_code
    then finish_stage_of_status status
    else g.ota_stage

-- The part of the loop that reads `rsp_cmd`, from the check of the report id on.
unfoldable pub on_response : CharSign → Globals → Globals
unfolding seq_of
on_response sign g =
    if rsp f_rid == 0x02
    then record g {
      ota_status = rsp f_r_stat;
      ota_stage =
          stage_after (rsp f_r_cmd) (rsp f_r_stat)
            (seq_of sign (get_or g.rsp_cmd f_r_seq0 0) (get_or g.rsp_cmd f_r_seq1 0)) g;
    }
    else g
  where
    rsp : ℕ → ℕ
    rsp i = promote sign (get_or g.rsp_cmd i 0)

-- A successful read: the copy to `rsp_cmd`, logged if the log is verbose, and the response.
unfoldable pub on_read : CharSign → List ℕ → Globals → Option Globals
on_read sign bytes g = do
  let rsp = copy_response rsp_cmd_len 0 bytes
  _ ← if g.is_verbose_log then dump_response sign rsp [] else some []
  some (on_response sign (record g { rsp_cmd = rsp }))

-- One round of `while (flagRead)`: the globals, and whether the thread runs on. `flagRead` is tested
-- when `read` returns.
unfoldable pub read_round : CharSign → ReadResult → Globals → Option (Globals × Bool)
read_round sign r g =
    if g.flag_read
    then elim r [
      | read_error ↦ some (record g { flag_read = false }, false)
      | read_bytes bytes ↦ (do g' ← on_read sign bytes g; some (g', true))
    ]
    else some (g, false)
