-- ===== src/Ota/Crc/Division.antt =====
-- The CRC as a division of polynomials, bit by bit: what the two tables are to speed up.
use bt_ota_bluez_api.Common.{
  ℕ, zero, suc, ◌*◌, ◌-◌, ◌/◌, ◌%◌, ◌^◌, bit_xor, List, [], ◌∷◌, ltb, ◌==◌, if◌then◌else◌,
}

-- One bit of CCITT's x^16 + x^12 + x^5 + 1, the highest bit first.
abbrev pub shift_left : ℕ → ℕ
shift_left crc = if ltb crc (2 ^ 15) then crc * 2 else bit_xor (crc * 2 - 2 ^ 16) 0x1021

unfoldable pub shift_left_times : ℕ → ℕ → ℕ
shift_left_times zero crc = crc
shift_left_times (suc n) crc = shift_left_times n (shift_left crc)

-- The remainder after a message: each byte enters at the high end.
unfoldable pub remainder16 : ℕ → List ℕ → ℕ
remainder16 crc [] = crc
remainder16 crc (c ∷ cs) = remainder16 (shift_left_times 8 (bit_xor crc (c * 2 ^ 8))) cs

-- One bit of the reflected polynomial of CRC-32, on unsigned words.
abbrev pub shift_right : ℕ → ℕ
shift_right c = if c % 2 == 1 then bit_xor 0xedb88320 (c / 2) else c / 2

unfoldable pub shift_right_times : ℕ → ℕ → ℕ
shift_right_times zero c = c
shift_right_times (suc n) c = shift_right_times n (shift_right c)

-- The remainder after a message: each byte enters at the low end.
unfoldable pub remainder32 : ℕ → List ℕ → ℕ
remainder32 c [] = c
remainder32 c (b ∷ bs) = remainder32 (shift_right_times 8 (bit_xor c b)) bs

-- The CRC-32 of a message.
unfoldable pub reference32 : List ℕ → ℕ
unfolding remainder32
reference32 bs = bit_xor (remainder32 0xffffffff bs) 0xffffffff
