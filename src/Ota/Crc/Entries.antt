-- ===== src/Ota/Crc/Entries.antt =====
-- `make_crc_table` against the table of CRC-32.
use bt_ota_bluez_api.Common.{
  ℕ, ◌+◌, ◌<◌, ◌≡◌, refl, ◌∙◌, ap, ◌↔◌, ◌⊎◌, Bool, true, ◌||◌, zero, suc, arith, ◌==◌, all_below,
  all_below_sound, get_or, if◌then◌else◌,
}
use bt_ota_bluez_api.Ota.Crc.Sums.{crc_entry, crc_rows, make_crc_table}
use bt_ota_bluez_api.Ota.Crc.Division.{shift_right_times}

-- The answer that the table of comparisons gives at `i`.
abbrev as_told : ℕ → Bool
as_told i =
    if i == 0 || i == 128
    then crc_entry 8 i == shift_right_times 8 i
    else if crc_entry 8 i == shift_right_times 8 i
    then Bool.false
    else true

comparisons : all_below 256 as_told ≡ true
unfolding crc_entry shift_right_times
comparisons = refl

get_or-crc_rows : (n i k : ℕ) → k < n → get_or (crc_rows n i) k 0 ≡ crc_entry 8 (i + k)
unfolding crc_rows
get_or-crc_rows zero i k h = absurd (omega arith)
get_or-crc_rows (suc n) i zero h = ap (crc_entry 8) (omega arith)
get_or-crc_rows (suc n) i (suc k) h =
    get_or-crc_rows n (i + 1) k (omega arith) ∙ ap (crc_entry 8) (omega arith)

entry_at : (i : ℕ) → i < 256 → get_or make_crc_table i 0 ≡ crc_entry 8 i
unfolding make_crc_table
entry_at i h = let e : 0 + i ≡ i = omega arith in get_or-crc_rows 256 0 i h ∙ ap (crc_entry 8) e

-- Since `c >> 1` keeps the sign of an `int`, the table that `make_crc_table` builds has the entry of
-- CRC-32 at the indices 0 and 128, and at no other index below 256.
pub make_crc_table_agrees_iff :
    (i : ℕ) → i < 256 → (get_or make_crc_table i 0 ≡ shift_right_times 8 i) ↔ ((i ≡ 0) ⊎ (i ≡ 128))
make_crc_table_agrees_iff i h =
    ground (arith, entry_at i h, all_below_sound 256 as_told i comparisons h)
