-- ===== src/Ota/Crc/Sums.antt =====
-- `crc16_ccitt`, `make_crc_table` and `crc32` of jni/hidserv.c.
use bt_ota_bluez_api.Common.{
  ℕ, zero, suc, ◌+◌, ◌*◌, ◌/◌, ◌%◌, ◌^◌, bit_and, bit_xor, List, [], ◌∷◌, ltb, ◌==◌, if◌then◌else◌,
  get_or, CharSign, promote,
}
use bt_ota_bluez_api.Ota.Crc.Table.{crc16tab}

-- One round of the loop: `(crc << 8) ^ crc16tab[((crc >> 8) ^ c) & 0xff]` as an `unsigned short`.
unfoldable pub crc16_round : CharSign → ℕ → ℕ → ℕ
crc16_round sign crc c =
    bit_xor (crc * 2 ^ 8)
      (get_or crc16tab (bit_and (bit_xor (crc / 2 ^ 8) (promote sign c)) 0x00ff) 0)
    % 2 ^ 16

unfoldable pub crc16_from : CharSign → ℕ → List ℕ → ℕ
crc16_from sign crc [] = crc
crc16_from sign crc (c ∷ buf) = crc16_from sign (crc16_round sign crc c) buf

unfoldable pub crc16_ccitt : CharSign → List ℕ → ℕ
unfolding crc16_from crc16_round
crc16_ccitt sign buf = crc16_from sign 0 buf

-- `c >> 1` of an `int` given by its 32-bit pattern: the sign bit stays.
abbrev pub int_shr1 : ℕ → ℕ
int_shr1 c = if ltb c (2 ^ 31) then c / 2 else c / 2 + 2 ^ 31

-- The inner loop of `make_crc_table`, with the rounds left.
unfoldable pub crc_entry : ℕ → ℕ → ℕ
crc_entry zero c = c
crc_entry (suc j) c =
    crc_entry j (if c % 2 == 1 then bit_xor 0xedb88320 (int_shr1 c) else int_shr1 c)

-- `crc_table[i..]`, with the rounds left.
unfoldable pub crc_rows : ℕ → ℕ → List ℕ
crc_rows zero i = []
crc_rows (suc left) i = crc_entry 8 i ∷ crc_rows left (i + 1)

unfoldable pub make_crc_table : List ℕ
unfolding crc_rows crc_entry
make_crc_table = crc_rows 256 0

-- `crc32` reads the table that the globals hold.
unfoldable pub crc32_from : List ℕ → ℕ → List ℕ → ℕ
crc32_from table c [] = c
crc32_from table c (b ∷ buf) =
    crc32_from table (bit_xor (get_or table (bit_and (bit_xor c b) 0xff) 0) (c / 2 ^ 8)) buf

unfoldable pub crc32 : List ℕ → List ℕ → ℕ
unfolding crc32_from
crc32 table buf = bit_xor (crc32_from table 0xffffffff buf) 0xffffffff
