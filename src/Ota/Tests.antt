-- ===== src/Ota/Tests.antt =====
-- The theorems on checksums, responses and the log at concrete inputs.
use bt_ota_bluez_api.Common.{
  ℕ, ◌%◌, ◌^◌, bit_xor, ◌<◌, ◌≤◌, ◌≡◌, refl, ◌↔◌, ◌⊎◌, ◌≢◌, true, false, none, some, List, [], ◌∷◌,
  arith, get_or, unsigned_char, signed_char,
}
use bt_ota_bluez_api.Common.{replicate}
use bt_ota_bluez_api.Ota.Templates.{init_cmd_lem}
use bt_ota_bluez_api.Ota.Protocol.{Templates, init_cmd}
use bt_ota_bluez_api.Common.Int.{negsuc}
use bt_ota_bluez_api.Ota.Globals.{Globals}
use bt_ota_bluez_api.Ota.Protocol.{stage_retrying, stage_next_cmd, stage_complete, stage_err_retry}
use bt_ota_bluez_api.Ota.Crc.Sums.{
  crc16_ccitt, make_crc_table, crc32, crc_rows, crc_entry, crc32_from,
}
use bt_ota_bluez_api.Ota.Crc.Division.{remainder16, remainder32, shift_right_times, reference32}
use bt_ota_bluez_api.Ota.Crc.Laws.{crc16_ccitt-remainder16}
use bt_ota_bluez_api.Ota.Crc.Built.{crc32-reference32_iff}
use bt_ota_bluez_api.Ota.Crc.Entries.{make_crc_table_agrees_iff}
use bt_ota_bluez_api.Ota.Reader.{seq_of, on_response, on_read}
use bt_ota_bluez_api.Ota.Reader.Sequence.{seq_of_eq_iff}
use bt_ota_bluez_api.Ota.Reader.Laws.{on_response_iff, on_read_verbose, Answers, IsKnown}
use bt_ota_bluez_api.Ota.Writer.{hid_write, minus_err_write}
use bt_ota_bluez_api.Ota.Writer.Laws.{hid_write_lem}

abbrev digits : List ℕ
digits = 0x31 ∷ 0x32 ∷ 0xb3 ∷ []

crc16_ccitt_example : crc16_ccitt signed_char digits ≡ remainder16 0 digits
crc16_ccitt_example =
    crc16_ccitt-remainder16 signed_char digits (omega arith, (omega arith, (omega arith, tt)))

make_crc_table_example :
    let i : ℕ = 1 in (get_or make_crc_table i 0 ≡ shift_right_times 8 i) ↔ ((i ≡ 0) ⊎ (i ≡ 128))
make_crc_table_example = make_crc_table_agrees_iff 1 (omega arith)

-- `crc32` gets the one byte 0x7f right.
right_byte : crc32 make_crc_table (0x7f ∷ []) ≡ reference32 (0x7f ∷ [])
unfolding crc32_from crc32 make_crc_table crc_rows crc_entry remainder32 reference32
    shift_right_times
right_byte = refl

crc32-reference32_iff_example :
    let index = bit_xor (remainder32 0xffffffff (0x7f ∷ []) % 2 ^ 8) 0x31 in
    (crc32 make_crc_table (0x7f ∷ 0x31 ∷ []) ≡ reference32 (0x7f ∷ 0x31 ∷ []))
    ↔ ((index ≡ 0) ⊎ (index ≡ 128))
crc32-reference32_iff_example = crc32-reference32_iff (0x7f ∷ []) 0x31 (omega arith) right_byte

-- Of two numbers that differ in the high byte.
seq_of_eq_iff_example :
    let (lo, hi, hi') : ℕ × ℕ × ℕ = (0x80, 1, 2) in
    (seq_of signed_char lo hi ≡ seq_of signed_char lo hi')
    ↔ ((lo ≡ lo) × ((hi ≡ hi') ⊎ ((signed_char ≡ signed_char) × (128 ≤ lo))))
seq_of_eq_iff_example =
    seq_of_eq_iff signed_char 0x80 1 0x80 2 (omega arith) (omega arith) (omega arith) (omega arith)

-- A data command with number 5 is waited for, and the response to it was copied last.
abbrev waiting_globals : Globals
waiting_globals = record {
  num1 = 1;
  num2 = 1;
  flag_read = true;
  ota_status = 0;
  ota_stage = stage_retrying;
  current_data_seq = 5;
  is_finish_cmd = false;
  is_verbose_log = false;
  total_cmd_num = 2;
  rsp_cmd = 2 ∷ 0 ∷ 2 ∷ 5 ∷ 0 ∷ 0 ∷ [];
}

on_response_example :
    let g = waiting_globals in
    let stage = (on_response unsigned_char g).ota_stage in
    let (cmd, status) : ℕ × ℕ = (2, 0) in
    ((stage ≡ stage_next_cmd) ↔ ((cmd ≡ 2) × (status ≡ 0) × Answers unsigned_char g))
    × ((stage ≡ stage_complete) ↔ (
        (cmd ≡ 2)
        × (((cmd ≡ 3) × (status ≡ 0)) ⊎ ((status ≡ 2) × (Answers unsigned_char g ⊎ (cmd ≡ 3))))))
    × ((stage ≡ stage_err_retry) ↔ (
        (cmd ≡ 2)
        × (((cmd ≡ 2) × (seq_of unsigned_char 5 0 ≢ 5))
            ⊎ (IsKnown g × (status ≢ 0) × (status ≢ 2)))))
on_response_example = on_response_iff unsigned_char waiting_globals refl

on_read_verbose_example :
    on_read signed_char (0 ∷ 2 ∷ []) (record waiting_globals { is_verbose_log = true }) ≡ none
on_read_verbose_example =
    on_read_verbose signed_char (0 ∷ 2 ∷ []) (record waiting_globals { is_verbose_log = true }) refl

hid_write_example :
    (hid_write unsigned_char false (0x52 ∷ []) (negsuc 0) ≡ some minus_err_write)
    × (0 < 1 → hid_write unsigned_char true (0x52 ∷ []) (negsuc 0) ≡ none)
hid_write_example = hid_write_lem unsigned_char (0x52 ∷ []) (negsuc 0)

abbrev blank_templates : Templates
blank_templates = record {
  start_cmd = replicate 24 0;
  data_cmd = replicate 649 0;
  finish_cmd = replicate 11 0;
}

-- The code of the commands.
init_cmd_example :
    let u = init_cmd blank_templates in
    let (start, data_code, finish) : ℕ × ℕ × ℕ = (1, 0, 3) in
    (get_or u.start_cmd 5 0 ≡ start)
    × (get_or u.data_cmd 5 0 ≡ data_code)
    × (get_or u.finish_cmd 5 0 ≡ finish)
init_cmd_example = init_cmd_lem blank_templates 5 refl refl refl
