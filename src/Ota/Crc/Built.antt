-- ===== src/Ota/Crc/Built.antt =====
-- `crc32` with the table that `make_crc_table` builds.
use bt_ota_bluez_api.Common.{
  ℕ, ◌%◌, ◌/◌, ◌^◌, ◌<◌, bit_and, bit_xor, ◌≡◌, refl, sym, ap, ◌∙◌, ◌↔◌, ◌⊎◌, List, [], ◌∷◌, ◌++◌,
  get_or,
}
use bt_ota_bluez_api.Common.Bits.Xor.{xor_cancel}
use bt_ota_bluez_api.Ota.Crc.Sums.{crc32_from, crc32, make_crc_table}
use bt_ota_bluez_api.Ota.Crc.Division.{shift_right_times, remainder32, reference32}
use bt_ota_bluez_api.Ota.Crc.Entries.{make_crc_table_agrees_iff}
use bt_ota_bluez_api.Ota.Crc.Reflected.{low_fits, table_index, division_round}

-- One byte behind a message.
crc32_from-++ :
    (table : List ℕ) (c : ℕ) (buf : List ℕ) (b : ℕ)
    → crc32_from table c (buf ++ b ∷ []) ≡ crc32_from table (crc32_from table c buf) (b ∷ [])
unfolding crc32_from
crc32_from-++ table c [] b = refl
crc32_from-++ table c (d ∷ buf) b =
    crc32_from-++ table (bit_xor (get_or table (bit_and (bit_xor c d) 0xff) 0) (c / 2 ^ 8)) buf b

remainder32-++ :
    (c : ℕ) (buf : List ℕ) (b : ℕ)
    → remainder32 c (buf ++ b ∷ []) ≡ shift_right_times 8 (bit_xor (remainder32 c buf) b)
unfolding remainder32
remainder32-++ c [] b = refl
remainder32-++ c (d ∷ buf) b = remainder32-++ (shift_right_times 8 (bit_xor c d)) buf b

-- One byte read in the same state.
one_byte :
    (c b : ℕ)
    → b < 256
    → (crc32_from make_crc_table c (b ∷ []) ≡ shift_right_times 8 (bit_xor c b))
      ↔ ((bit_xor (c % 2 ^ 8) b ≡ 0) ⊎ (bit_xor (c % 2 ^ 8) b ≡ 128))
unfolding crc32_from
one_byte c b h = (
  λ e. agrees.0 (
      xor_cancel _ _ (c / 2 ^ 8) (
        ap (λ i. bit_xor (get_or make_crc_table i 0) (c / 2 ^ 8)) (sym (table_index c b h))
        ∙ e
        ∙ division_round c b h)),
  λ i.
      ap (λ i. bit_xor (get_or make_crc_table i 0) (c / 2 ^ 8)) (table_index c b h)
      ∙ ap (λ n. bit_xor n (c / 2 ^ 8)) (agrees.1 i)
      ∙ sym (division_round c b h),
)
  where
    agrees :
        (get_or make_crc_table (bit_xor (c % 2 ^ 8) b) 0
          ≡ shift_right_times 8 (bit_xor (c % 2 ^ 8) b))
        ↔ ((bit_xor (c % 2 ^ 8) b ≡ 0) ⊎ (bit_xor (c % 2 ^ 8) b ≡ 128))
    agrees = make_crc_table_agrees_iff (bit_xor (c % 2 ^ 8) b) (low_fits c b h)

-- With the table that `make_crc_table` builds, when `crc32` of a message is the bitwise division by
-- CRC-32's polynomial, with all bits turned over before and after it, then it is so with one more
-- byte exactly when that byte, exclusive or the low byte of what the division has left of the message,
-- is 0 or 128.
pub crc32-reference32_iff :
    (buf : List ℕ) (b : ℕ)
    → b < 256
    → crc32 make_crc_table buf ≡ reference32 buf
    → (crc32 make_crc_table (buf ++ b ∷ []) ≡ reference32 (buf ++ b ∷ [])) ↔ (
        (bit_xor (remainder32 0xffffffff buf % 2 ^ 8) b ≡ 0)
        ⊎ (bit_xor (remainder32 0xffffffff buf % 2 ^ 8) b ≡ 128))
unfolding crc32 reference32
crc32-reference32_iff buf b h right = (
  λ e.
      (one_byte (remainder32 0xffffffff buf) b h).0
        (sym read ∙ xor_cancel _ _ 0xffffffff e ∙ remainder32-++ 0xffffffff buf b),
  λ i.
      ap (λ c. bit_xor c 0xffffffff)
        (read
          ∙ (one_byte (remainder32 0xffffffff buf) b h).1 i
          ∙ sym (remainder32-++ 0xffffffff buf b)),
)
  where
    read :
        crc32_from make_crc_table 0xffffffff (buf ++ b ∷ [])
        ≡ crc32_from make_crc_table (remainder32 0xffffffff buf) (b ∷ [])
    read =
        crc32_from-++ make_crc_table 0xffffffff buf b
        ∙ ap (λ c. crc32_from make_crc_table c (b ∷ [])) (xor_cancel _ _ 0xffffffff right)
