-- ===== src/Ota/Update/Noted.antt =====
-- What is noted of a data command: the sequence number and the progress.
use bt_ota_bluez_api.Common.{
  ◌+◌, ◌*◌, ◌/◌, ◌^◌, ◌<◌, ◌≡◌, inl, inr, some, arith, CharSign, promote, if◌then◌else◌, Bool-cases,
  false, lt→ltb, ◌==◌, leb, ◌&&◌,
}
use bt_ota_bluez_api.Common.Int.{ℤ, pos, ◌-ℤ◌}
use bt_ota_bluez_api.Ota.Globals.{Globals}
use bt_ota_bluez_api.Ota.Reader.{seq_of}
use bt_ota_bluez_api.Ota.Update.State.{Updater}
use bt_ota_bluez_api.Ota.Update.Command.{note_data_cmd}

-- What `note_data_cmd` does to the globals, where the progress can be computed.
abbrev pub noted : CharSign → Updater → Globals → Globals
noted sign u g =
    if promote sign (u.cmd_buf 5) == 0x02
    then record g {
      current_data_seq = seq_of sign (u.cmd_buf 6) (u.cmd_buf 7);
      num1 = g.num1 + 1;
      num2 =
          if leb g.num2 (g.num1 * 64900 / u.fw_data_len) && leb g.num2 99
          then g.num2 + 1
          else g.num2;
    }
    else g

abbrev pub noted_remain : CharSign → Updater → ℤ
noted_remain sign u =
    if promote sign (u.cmd_buf 5) == 0x02
    then u.remain_data_len -ℤ pos u.current_cmd_len
    else u.remain_data_len

pub note_data_cmd_lem :
    (sign : CharSign) (u : Updater) (g : Globals)
    → g.num1 * 64900 < 2 ^ 31
    → 0 < u.fw_data_len
    → note_data_cmd sign u g
      ≡ some (record u { remain_data_len = noted_remain sign u }, noted sign u g)
unfolding note_data_cmd
note_data_cmd_lem sign u g h k = elim (Bool-cases (promote sign (u.cmd_buf 5) == 0x02)) [
  | inl e ↦ rw (e, lt→ltb _ _ h, nonzero)
  | inr e ↦ rw e
]
  where
    nonzero : (u.fw_data_len == 0) ≡ false
    nonzero = ground arith
