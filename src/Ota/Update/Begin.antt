-- ===== src/Ota/Update/Begin.antt =====
-- What FLAG_SNED_NEXT_CMD puts into `cmd_buf` and the globals.
use bt_ota_bluez_api.Common.{
  ℕ, suc, ◌+◌, ◌*◌, ◌/◌, ◌%◌, ◌^◌, ◌≤◌, ◌<◌, ◌≡◌, ◌≢◌, refl, ap, ◌∙◌, bit_and, Option, some, ◌∷◌,
  arith, update, slice, slice_ext, ltb, CharSign, if◌then◌else◌, lt→ltb,
}
use bt_ota_bluez_api.Ota.Update.Noted.{noted, noted_remain, note_data_cmd_lem}
use mathlib.Core.Path.{ap₂}
use bt_ota_bluez_api.Common.Bits.{bit_and_byte, bit_and_high_byte}
use bt_ota_bluez_api.Ota.Globals.{Globals}
use bt_ota_bluez_api.Ota.Protocol.{stage_new_cmd}
use bt_ota_bluez_api.Ota.Reader.{seq_of}
use bt_ota_bluez_api.Ota.Update.State.{Updater, retry_cmd, fw_data_buf_size, cmd_buf_size}
use bt_ota_bluez_api.Ota.Update.Command.{copy_cmd, begin_cmd, fill_crc, cmd_len_at}
use bt_ota_bluez_api.Ota.Update.Steps.{packet}
use bt_ota_bluez_api.Ota.Update.Copy.{sum16, IsCopied, copy_cmd-IsCopied}

-- The updater and the globals when the command has been copied, before anything is made of it.
abbrev pub copied : Updater → (ℕ → ℕ) → ℕ → Updater
copied u buf crc = record u {
  send_count = 0;
  current_cmd_idx = u.current_cmd_idx + u.current_cmd_len;
  current_cmd_len = cmd_len_at u.fw_data_buf (u.current_cmd_idx + u.current_cmd_len);
  cmd_buf = buf;
  crc_res = crc;
}

abbrev pub counted : Globals → Globals
counted g = record g {
  current_data_seq = 0;
  ota_stage = stage_new_cmd;
  total_cmd_num = g.total_cmd_num + 1;
}

module _ (sign : CharSign) (u : Updater) (g : Globals) where
  abbrev idx : ℕ
  idx = u.current_cmd_idx + u.current_cmd_len

  abbrev len : ℕ
  len = cmd_len_at u.fw_data_buf idx

  -- The byte at index `k` of the new command; zero past its end.
  abbrev pub cmd_byte : ℕ → ℕ
  cmd_byte k = if ltb k len then u.fw_data_buf (idx + k) else 0

  -- The next command lies in `cmd_buf`, framed and numbered.
  pub record IsBegun (result : Option (Updater × Globals)) : Type 0 where
    pub u' : Updater
    pub g' : Globals
    pub returns : result ≡ some (u', g')
    pub at_retry : u'.pc ≡ retry_cmd
    pub fresh : u'.send_count ≡ 0
    pub moved : u'.current_cmd_idx ≡ idx
    pub sized : u'.current_cmd_len ≡ len
    pub image : (u'.fw_data_buf ≡ u.fw_data_buf) × (u'.fw_data_len ≡ u.fw_data_len)
    pub framed : packet u' ≡ 0x52 ∷ slice u.fw_data_buf idx len
    pub summed :
        (u'.cmd_buf (len + 1) ≡ u'.crc_res % 2 ^ 8)
        × (u'.cmd_buf (len + 2) ≡ u'.crc_res / 2 ^ 8 % 2 ^ 8)
        × (u'.crc_res ≡ sum16 sign 0 (slice u.fw_data_buf idx len))
    pub numbered : cmd_byte 4 ≡ 2 → g'.current_data_seq ≡ seq_of sign (cmd_byte 5) (cmd_byte 6)
    pub unnumbered : cmd_byte 4 ≢ 2 → g'.current_data_seq ≡ 0
    pub staged : (g'.ota_stage ≡ stage_new_cmd) × (g'.total_cmd_num ≡ g.total_cmd_num + 1)
    pub counts_up : g'.num1 ≤ g.num1 + 1
    pub kept : (g'.flag_read ≡ g.flag_read) × (g'.is_verbose_log ≡ g.is_verbose_log)

  -- The start of `cmd_buf` as the loop leaves it.
  abbrev blank : ℕ → ℕ
  blank = update (λ _. 0) 0 0x52

  abbrev Copied : Type 0
  Copied =
      IsCopied sign u.fw_data_buf idx len 0 blank 0 (copy_cmd sign u.fw_data_buf idx len 0 blank 0)

  finished : (Copied) → Option (Updater × Globals)
  finished c =
      fill_crc sign
        (record (copied u c.out c.sum) {
          remain_data_len = noted_remain sign (copied u c.out c.sum);
        })
        (noted sign (copied u c.out c.sum) (counted g))

  begin_cmd_reaches :
      (c : Copied)
      → idx + 2 < fw_data_buf_size
      → g.num1 * 64900 < 2 ^ 31
      → 0 < u.fw_data_len
      → begin_cmd sign u g ≡ finished c
  unfolding begin_cmd finished
  begin_cmd_reaches c h k l =
      rw (lt→ltb _ _ h, c.returns, note_data_cmd_lem sign (copied u c.out c.sum) (counted g) k l)

  -- `cmd_buf` after the loop, behind the report type.
  copied_byte : (c : Copied) (k : ℕ) → c.out (suc k) ≡ cmd_byte k
  copied_byte c k = ground (arith, c.inside k, c.outside (suc k))

  finished-IsBegun : (c : Copied) → len ≤ 1021 → IsBegun (finished c)
  unfolding finished fill_crc
  finished-IsBegun c h = rw (lt→ltb _ _ fits) (record {
    u' = _;
    g' = _;
    returns = refl;
    at_retry = refl;
    fresh = refl;
    moved = refl;
    sized = refl;
    image = (refl, refl);
    framed = ap₂ ◌∷◌ top (slice_ext _ _ 1 idx len body);
    summed = (low, high, c.sums ∙ ap (λ n. sum16 sign 0 (slice u.fw_data_buf n len)) start);
    numbered = λ e. ground (arith, copied_byte c 4, copied_byte c 5, copied_byte c 6);
    unnumbered = λ e. ground (arith, copied_byte c 4);
    staged = (ground arith, ground arith);
    counts_up = ground arith;
    kept = (ground arith, ground arith);
  })
    where
      fits : len + 2 < cmd_buf_size
      fits = omega arith

      start : idx + 0 ≡ idx
      start = omega arith

      buf : ℕ → ℕ
      buf =
          update (update c.out (len + 1) (bit_and c.sum 0x00ff)) (len + 2)
            (bit_and c.sum 0xff00 / 2 ^ 8)

      top : buf 0 ≡ 0x52
      top = ground (arith, c.outside 0)

      body : (k : ℕ) → k < len → buf (1 + k) ≡ u.fw_data_buf (idx + k)
      body k below = let e : 1 + k ≡ suc k = omega arith in rw e (ground (arith, copied_byte c k))

      low : buf (len + 1) ≡ c.sum % 2 ^ 8
      low = ground (arith, bit_and_byte c.sum)

      high : buf (len + 2) ≡ c.sum / 2 ^ 8 % 2 ^ 8
      high = ground (arith, bit_and_high_byte c.sum)

  -- If the next command lies in the image's array, has 1021 bytes at most and, with the header, the
  -- progress can be computed (the image is not empty, and the product fits an int), the code up to
  -- FLAG_RETRY_CMD does nothing undefined: the packet is 0x52 and the command, its 16-bit sum stands
  -- behind it, low byte first, and the sequence number expected is that of the command, if it is a
  -- data command, and 0 if not.
  pub begin_cmd-IsBegun :
      idx + 2 < fw_data_buf_size
      → idx + len ≤ fw_data_buf_size
      → len ≤ 1021
      → g.num1 * 64900 < 2 ^ 31
      → 0 < u.fw_data_len
      → IsBegun (begin_cmd sign u g)
  begin_cmd-IsBegun h k l m n =
      let c : Copied =
        copy_cmd-IsCopied sign u.fw_data_buf idx len 0 blank 0 (omega arith) (omega arith) in
      rw (begin_cmd_reaches c h m n) (finished-IsBegun c l)
