-- ===== src/Ota/Crc/Laws.antt =====
-- `crc16_ccitt` is the remainder of the division, whether `char` is signed or not.
use bt_ota_bluez_api.Common.{
  ℕ, ◌+◌, ◌*◌, ◌/◌, ◌%◌, ◌^◌, ◌<◌, bit_and, bit_xor, Bool-cases, inl, inr, ◌≡◌, refl, sym, Bool,
  true, List, [], ◌∷◌, arith, ltb, ltb→lt, ◌==◌, ==_iff, all_below, all_below_sound, get_or, Bytes,
  CharSign, unsigned_char, signed_char, promote,
}
use mathlib.Core.Path.{subst}
use bt_ota_bluez_api.Common.Bits.{bit_xor-lt, bit_xor_fields, bit_xor-zero, bit_and_byte}
use bt_ota_bluez_api.Ota.Crc.Table.{crc16tab}
use bt_ota_bluez_api.Ota.Crc.Sums.{crc16_round, crc16_from, crc16_ccitt}
use bt_ota_bluez_api.Ota.Crc.Division.{shift_left_times, remainder16}

abbrev entry : ℕ → ℕ
entry hi = get_or crc16tab hi 0

abbrev row_agrees : ℕ → ℕ → Bool
row_agrees hi e = all_below 256 (λ lo. shift_left_times 8 (hi * 256 + lo) == bit_xor (lo * 256) e)

rows_agree : all_below 256 (λ hi. row_agrees hi (entry hi)) ≡ true
unfolding shift_left_times
rows_agree = refl

-- Eight bits of the division, by the table.
eight_shifts :
    (hi lo : ℕ)
    → hi < 256
    → lo < 256
    → shift_left_times 8 (hi * 256 + lo) ≡ bit_xor (lo * 256) (entry hi)
eight_shifts hi lo h l = (==_iff _ _).0 (
    all_below_sound 256 (λ lo. shift_left_times 8 (hi * 256 + lo) == bit_xor (lo * 256) (entry hi))
      lo (all_below_sound 256 (λ hi. row_agrees hi (entry hi)) hi rows_agree h) l)

entry-lt : (hi : ℕ) → hi < 256 → entry hi < 2 ^ 16
entry-lt hi h = ltb→lt _ _ (all_below_sound 256 (λ hi. ltb (entry hi) (2 ^ 16)) hi refl h)

-- Promotion adds nothing to the lowest byte.
promote_fields : (sign : CharSign) (c : ℕ) → (q : ℕ) × (promote sign c ≡ q * 2 ^ 8 + c)
promote_fields unsigned_char c = (0, omega arith)
promote_fields signed_char c = elim (Bool-cases (ltb c 128)) [
  | inl low ↦ (0, rw low (omega arith))
  | inr high ↦ (0xffffff, rw high (omega arith))
]

-- `^` of two words given by their fields, the fields being those of any two numbers.
xor_of_fields :
    {a b : ℕ} (k q x p y : ℕ)
    → a ≡ q * 2 ^ k + x
    → b ≡ p * 2 ^ k + y
    → x < 2 ^ k
    → y < 2 ^ k
    → bit_xor a b ≡ bit_xor q p * 2 ^ k + bit_xor x y
xor_of_fields k q x p y ea eb hx hy = rw (ea, eb) (bit_xor_fields k q x p y hx hy)

-- The index into the table, whatever the sign of `char`.
table_index :
    (sign : CharSign) (hi c : ℕ)
    → hi < 256
    → c < 256
    → bit_and (bit_xor hi (promote sign c)) 0xff ≡ bit_xor hi c
table_index sign hi c h hc =
    let (q, e) = promote_fields sign c in
    omega (
      arith,
      bit_and_byte (bit_xor hi (promote sign c)),
      xor_of_fields {a = hi} 8 0 hi q c (omega arith) e h hc,
      bit_xor-lt 8 hi c h hc,
    )

-- One byte of the table-driven loop is eight bits of the division.
round_on_bytes :
    (sign : CharSign) (hi lo c : ℕ)
    → hi < 256
    → lo < 256
    → c < 256
    → crc16_round sign (hi * 2 ^ 8 + lo) c
      ≡ shift_left_times 8 (bit_xor (hi * 2 ^ 8 + lo) (c * 2 ^ 8))
unfolding crc16_round
round_on_bytes sign hi lo c h l hc =
    rw (high_byte, table_index sign hi c h hc, entered)
      (omega (
        arith,
        eight_shifts (bit_xor hi c) lo (bit_xor-lt 8 hi c h hc) l,
        shifted,
        bit_xor-lt 16 (lo * 256) e (omega arith) e_fits,
      ))
  where
    e : ℕ
    e = entry (bit_xor hi c)

    e_fits : e < 2 ^ 16
    e_fits = entry-lt (bit_xor hi c) (bit_xor-lt 8 hi c h hc)

    high_byte : (hi * 2 ^ 8 + lo) / 2 ^ 8 ≡ hi
    high_byte = omega arith

    entered : bit_xor (hi * 2 ^ 8 + lo) (c * 2 ^ 8) ≡ bit_xor hi c * 256 + lo
    entered = omega (
      arith,
      xor_of_fields {b = c * 2 ^ 8} 8 hi lo c 0 refl (omega arith) l (omega arith),
      bit_xor-zero lo lo (omega arith),
    )

    shifted : bit_xor ((hi * 2 ^ 8 + lo) * 2 ^ 8) e ≡ bit_xor hi 0 * 2 ^ 16 + bit_xor (lo * 256) e
    shifted = xor_of_fields 16 hi (lo * 256) 0 e (omega arith) (omega arith) (omega arith) e_fits

crc16_round_lem :
    (sign : CharSign) (crc c : ℕ)
    → crc < 2 ^ 16
    → c < 256
    → crc16_round sign crc c ≡ shift_left_times 8 (bit_xor crc (c * 2 ^ 8))
crc16_round_lem sign crc c h hc =
    let e : crc ≡ crc / 2 ^ 8 * 2 ^ 8 + crc % 2 ^ 8 = omega arith in
    subst (λ w. crc16_round sign w c ≡ shift_left_times 8 (bit_xor w (c * 2 ^ 8))) (sym e)
      (round_on_bytes sign (crc / 2 ^ 8) (crc % 2 ^ 8) c (omega arith) (omega arith) hc)

crc16_round-lt : (sign : CharSign) (crc c : ℕ) → crc16_round sign crc c < 2 ^ 16
unfolding crc16_round
crc16_round-lt sign crc c = omega arith

crc16_from-remainder16 :
    (sign : CharSign) (crc : ℕ) (buf : List ℕ)
    → crc < 2 ^ 16
    → Bytes buf
    → crc16_from sign crc buf ≡ remainder16 crc buf
unfolding crc16_from remainder16
crc16_from-remainder16 sign crc [] h b = refl
crc16_from-remainder16 sign crc (c ∷ buf) h (hc, b) =
    rw (← crc16_round_lem sign crc c h hc)
      (crc16_from-remainder16 sign (crc16_round sign crc c) buf (crc16_round-lt sign crc c) b)

-- On every message of bytes `crc16_ccitt` is the remainder of the bitwise division by CCITT's
-- polynomial, started at 0, on compilers with signed and with unsigned `char` alike.
pub crc16_ccitt-remainder16 :
    (sign : CharSign) (buf : List ℕ) → Bytes buf → crc16_ccitt sign buf ≡ remainder16 0 buf
unfolding crc16_ccitt
crc16_ccitt-remainder16 sign buf b = crc16_from-remainder16 sign 0 buf (omega arith) b
