-- ===== src/Ota/Crc/Reflected.antt =====
-- One byte of the bitwise division, by the byte that `crc32` looks up in its table.
use bt_ota_bluez_api.Common.{
  ℕ, zero, suc, ◌+◌, ◌*◌, ◌/◌, ◌%◌, ◌^◌, ◌<◌, bit_and, bit_xor, Bool-cases, inl, inr, ◌≡◌, refl,
  sym, ap, ◌∙◌, true, false, arith, ◌==◌,
}
use native.Mathlib.Nat.{pow-suc}
use Prim.Native.Nat.{bit_xor-bitwise}
use bt_ota_bluez_api.Common.Bits.{double, bit_xor-lt, bit_xor_fields, bit_xor-zero, bit_and_byte}
use bt_ota_bluez_api.Common.Bits.Xor.{bit_xor_assoc}
use bt_ota_bluez_api.Ota.Crc.Division.{shift_right, shift_right_times}

abbrev poly : ℕ
poly = 0xedb88320

-- A number by its fields below and from bit `k` on.
record Fields (k n : ℕ) : Type 0 where
  high : ℕ
  low : ℕ
  sum : n ≡ high * 2 ^ k + low
  fits : low < 2 ^ k

fields : (k n : ℕ) → Fields k n
fields zero n = record { high = n; low = 0; sum = omega arith; fits = omega arith }
fields (suc k) n =
    let f = fields k (n / 2) in
    record {
      high = f.high;
      low = f.low * 2 + n % 2;
      sum = omega (arith, double f.high k, f.sum);
      fits = omega (arith, pow-suc 2 k, f.fits);
    }

xor_zero : (y : ℕ) → bit_xor 0 y ≡ y
xor_zero y = simp bit_xor-bitwise refl

-- One bit of a number that is given by its fields.
even_shift :
    (k hi lo : ℕ) → (lo % 2 == 1) ≡ false → shift_right (hi * 2 ^ suc k + lo) ≡ hi * 2 ^ k + lo / 2
even_shift k hi lo even =
    let same : (hi * 2 ^ suc k + lo) % 2 ≡ lo % 2 = omega (arith, double hi k) in
    rw (same, even) (omega (arith, double hi k))

odd_shift :
    (k hi lo : ℕ)
    → (lo % 2 == 1) ≡ true
    → shift_right (hi * 2 ^ suc k + lo) ≡ bit_xor poly (hi * 2 ^ k + lo / 2)
odd_shift k hi lo odd =
    let same : (hi * 2 ^ suc k + lo) % 2 ≡ lo % 2 = omega (arith, double hi k) in
    rw (same, odd) (ap (bit_xor poly) (omega (arith, double hi k)))

-- The bits above those that are shifted out come down as they are.
shift_right_times-fields :
    (k hi lo : ℕ)
    → lo < 2 ^ k
    → shift_right_times k (hi * 2 ^ k + lo) ≡ bit_xor (shift_right_times k lo) hi
unfolding shift_right_times
shift_right_times-fields zero hi lo h =
    let e : lo ≡ 0 = omega arith in rw (e, xor_zero hi) (omega arith)
shift_right_times-fields (suc k) hi lo h = elim (Bool-cases (lo % 2 == 1)) [
  | inl odd ↦
      let p = fields k poly in
      ap (shift_right_times k) (
        odd_shift k hi lo odd
        ∙ ap (λ n. bit_xor n (hi * 2 ^ k + lo / 2)) p.sum
        ∙ bit_xor_fields k p.high p.low hi (lo / 2) p.fits half)
      ∙ shift_right_times-fields k (bit_xor p.high hi) (bit_xor p.low (lo / 2))
          (bit_xor-lt k p.low (lo / 2) p.fits half)
      ∙ sym (bit_xor_assoc (shift_right_times k (bit_xor p.low (lo / 2))) p.high hi)
      ∙ ap (λ n. bit_xor n hi)
          (sym (
            shift_right_times-fields k p.high (bit_xor p.low (lo / 2))
              (bit_xor-lt k p.low (lo / 2) p.fits half)))
      ∙ ap (λ n. bit_xor (shift_right_times k n) hi) (sym (alone odd))
  | inr even ↦
      ap (shift_right_times k) (even_shift k hi lo even)
      ∙ shift_right_times-fields k hi (lo / 2) half
      ∙ ap (λ n. bit_xor (shift_right_times k n) hi) (rw even refl)
]
  where
    half : lo / 2 < 2 ^ k
    half = omega (arith, pow-suc 2 k)

    alone :
        (lo % 2 == 1) ≡ true
        → shift_right lo ≡ (fields k poly).high * 2 ^ k + bit_xor (fields k poly).low (lo / 2)
    alone odd =
        let p = fields k poly in
        let whole : 0 * 2 ^ k + lo / 2 ≡ lo / 2 = omega arith in
        rw odd (
          ap (bit_xor poly) (sym whole)
          ∙ ap (λ n. bit_xor n (0 * 2 ^ k + lo / 2)) p.sum
          ∙ bit_xor_fields k p.high p.low 0 (lo / 2) p.fits half
          ∙ ap (λ n. n * 2 ^ k + bit_xor p.low (lo / 2)) (bit_xor-zero p.high p.high (omega arith)))

pub low_fits : (c b : ℕ) → b < 256 → bit_xor (c % 2 ^ 8) b < 2 ^ 8
low_fits c b h = bit_xor-lt 8 (c % 2 ^ 8) b (omega arith) h

entered : (c b : ℕ) → b < 256 → bit_xor c b ≡ c / 2 ^ 8 * 2 ^ 8 + bit_xor (c % 2 ^ 8) b
entered c b h =
    let whole : c ≡ c / 2 ^ 8 * 2 ^ 8 + c % 2 ^ 8 = omega arith in
    let byte : 0 * 2 ^ 8 + b ≡ b = omega arith in
    ap (λ n. bit_xor n b) whole
    ∙ ap (bit_xor (c / 2 ^ 8 * 2 ^ 8 + c % 2 ^ 8)) (sym byte)
    ∙ bit_xor_fields 8 (c / 2 ^ 8) (c % 2 ^ 8) 0 b (omega arith) h
    ∙ ap (λ n. n * 2 ^ 8 + bit_xor (c % 2 ^ 8) b)
        (bit_xor-zero (c / 2 ^ 8) (c / 2 ^ 8) (omega arith))

-- One byte `b` read in the state `c`: the index into the table, and eight bits of the division.
pub table_index : (c b : ℕ) → b < 256 → bit_and (bit_xor c b) 0xff ≡ bit_xor (c % 2 ^ 8) b
table_index c b h = omega (arith, bit_and_byte (bit_xor c b), entered c b h, low_fits c b h)

pub division_round :
    (c b : ℕ)
    → b < 256
    → shift_right_times 8 (bit_xor c b)
      ≡ bit_xor (shift_right_times 8 (bit_xor (c % 2 ^ 8) b)) (c / 2 ^ 8)
division_round c b h =
    ap (shift_right_times 8) (entered c b h)
    ∙ shift_right_times-fields 8 (c / 2 ^ 8) (bit_xor (c % 2 ^ 8) b) (low_fits c b h)
