-- ===== src/Ota/Update/Command.antt =====
-- FLAG_SNED_NEXT_CMD of `ota_update`: the next command is cut out of the firmware image and put into
-- `cmd_buf`.
use bt_ota_bluez_api.Common.{
  ℕ, zero, suc, ◌+◌, ◌*◌, ◌/◌, ◌%◌, ◌^◌, bit_and, bit_or, true, ◌&&◌, not, Option, some, ltb, leb,
  ◌==◌, if◌then◌else◌, update, CharSign, promote, ◌>>=◌, ◌>>◌, check,
}
use bt_ota_bluez_api.Common.Int.{pos, ◌-ℤ◌}
use bt_ota_bluez_api.Ota.Globals.{Globals}
use bt_ota_bluez_api.Ota.Protocol.{stage_new_cmd}
use bt_ota_bluez_api.Ota.Reader.{seq_of}
use bt_ota_bluez_api.Ota.Update.State.{retry_cmd, fw_data_buf_size, cmd_buf_size, Updater}

-- `uint16_t CRCRes += cmd_buf[i]`.
abbrev pub add_crc : CharSign → ℕ → ℕ → ℕ
add_crc sign crc c = (crc + promote sign c) % 2 ^ 16

-- The loop that copies the command from `fw[idx..]` to `cmd_buf[1..]` and sums it up, with the
-- rounds left and the index `i`.
unfoldable pub copy_cmd : CharSign → (ℕ → ℕ) → ℕ → ℕ → ℕ → (ℕ → ℕ) → ℕ → Option ((ℕ → ℕ) × ℕ)
copy_cmd sign fw idx zero i cmd_buf crc = some (cmd_buf, crc)
copy_cmd sign fw idx (suc left) i cmd_buf crc = do
  check (ltb (idx + i) fw_data_buf_size)
  check (ltb (i + 1) cmd_buf_size)
  copy_cmd sign fw idx left (i + 1) (update cmd_buf (i + 1) (fw (idx + i)))
      (add_crc sign crc (fw (idx + i)))

-- `num1 * 649 * 100` must fit an `int`, and the length it is divided by must not be 0.
abbrev pub progress : ℕ → Globals → Option Globals
progress fw_data_len g = do
  check (ltb (g.num1 * 64900) (2 ^ 31))
  check (not (fw_data_len == 0))
  some (record g {
    num1 = g.num1 + 1;
    num2 =
        if leb g.num2 (g.num1 * 64900 / fw_data_len) && leb g.num2 99 then g.num2 + 1 else g.num2;
  })

-- What is done for a data command: its sequence number, and the progress.
unfoldable pub note_data_cmd : CharSign → Updater → Globals → Option (Updater × Globals)
unfolding seq_of
note_data_cmd sign u g =
    if promote sign (u.cmd_buf 5) == 0x02
    then (do
      g' ←
          progress u.fw_data_len
            (record g { current_data_seq = seq_of sign (u.cmd_buf 6) (u.cmd_buf 7) })
      some (record u { remain_data_len = u.remain_data_len -ℤ pos u.current_cmd_len }, g'))
    else some (u, g)

-- The two checksum bytes behind the command, and the finish flag.
unfoldable pub fill_crc : CharSign → Updater → Globals → Option (Updater × Globals)
fill_crc sign u g = do
  check (ltb (u.current_cmd_len + 2) cmd_buf_size)
  let buf =
      update (update u.cmd_buf (u.current_cmd_len + 1) (bit_and u.crc_res 0x00ff))
        (u.current_cmd_len + 2) (bit_and u.crc_res 0xff00 / 2 ^ 8)
  some (
    record u { pc = retry_cmd; cmd_buf = buf },
    if promote sign (buf 5) == 0x03 then record g { is_finish_cmd = true } else g,
  )

-- The length of the command at `idx`, from its two size bytes.
abbrev pub cmd_len_at : (ℕ → ℕ) → ℕ → ℕ
cmd_len_at fw idx = bit_or (fw (idx + 1)) (fw (idx + 2) * 2 ^ 8)

unfoldable pub begin_cmd : CharSign → Updater → Globals → Option (Updater × Globals)
begin_cmd sign u g = do
  let idx = u.current_cmd_idx + u.current_cmd_len
  check (ltb (idx + 2) fw_data_buf_size)
  let len = cmd_len_at u.fw_data_buf idx
  (buf, crc) ← copy_cmd sign u.fw_data_buf idx len 0 (update (λ _. 0) 0 0x52) 0
  (u', g') ←
      note_data_cmd sign
        (record u {
          send_count = 0;
          current_cmd_idx = idx;
          current_cmd_len = len;
          cmd_buf = buf;
          crc_res = crc;
        })
        (record g {
          current_data_seq = 0;
          ota_stage = stage_new_cmd;
          total_cmd_num = g.total_cmd_num + 1;
        })
  fill_crc sign u' g'
