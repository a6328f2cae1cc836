-- ===== src/Ota/Reader/Sequence.antt =====
-- The sequence numbers that `ota_update` and `hidRead` build from two chars and compare.
use bt_ota_bluez_api.Common.{
  ℕ, ◌+◌, ◌*◌, ◌%◌, ◌^◌, ◌≤◌, ◌<◌, ◌≡◌, refl, ◌↔◌, ◌⊎◌, Bool, true, arith, ltb, ◌==◌, all_below,
  all_below_sound, if◌then◌else◌, CharSign, unsigned_char, signed_char,
}
use bt_ota_bluez_api.Common.Bits.{bit_or_fields}
use bt_ota_bluez_api.Ota.Reader.{seq_of}

pub seq_of_unsigned :
    (lo hi : ℕ) → lo < 256 → hi < 256 → seq_of unsigned_char lo hi ≡ lo + hi * 2 ^ 8
unfolding seq_of
seq_of_unsigned lo hi h k =
    let e : hi * 2 ^ 8 % 2 ^ 32 ≡ hi * 2 ^ 8 = omega arith in rw e (bit_or_fields 8 lo hi h)

-- Where `char` is signed, a byte from 128 on fills the bits above it.
abbrev signed_value : ℕ → ℕ → ℕ
signed_value lo hi =
    if ltb lo 128
    then if ltb hi 128 then lo + hi * 256 else 0xffff0000 + lo + hi * 256
    else 0xffffff00 + lo

abbrev has_value : ℕ → ℕ → Bool
has_value hi lo = seq_of signed_char lo hi == signed_value lo hi

all_have_values : all_below 256 (λ hi. all_below 256 (λ lo. has_value hi lo)) ≡ true
unfolding seq_of
all_have_values = refl

seq_of_signed : (lo hi : ℕ) → lo < 256 → hi < 256 → seq_of signed_char lo hi ≡ signed_value lo hi
seq_of_signed lo hi a b = ground (
  arith,
  all_below_sound 256 (λ lo. has_value hi lo) lo
      (all_below_sound 256 (λ hi. all_below 256 (λ lo. has_value hi lo)) hi all_have_values b) a,
)

-- Two sequence numbers compare equal exactly when their low bytes agree and, unless `char` is signed
-- and the low byte has its top bit set, their high bytes too: then the high byte is lost.
pub seq_of_eq_iff :
    (sign : CharSign) (lo hi lo' hi' : ℕ)
    → lo < 256
    → hi < 256
    → lo' < 256
    → hi' < 256
    → (seq_of sign lo hi ≡ seq_of sign lo' hi')
      ↔ ((lo ≡ lo') × ((hi ≡ hi') ⊎ ((sign ≡ signed_char) × (128 ≤ lo))))
seq_of_eq_iff unsigned_char lo hi lo' hi' a b c d =
    ground (arith, seq_of_unsigned lo hi a b, seq_of_unsigned lo' hi' c d)
seq_of_eq_iff signed_char lo hi lo' hi' a b c d =
    ground (arith, seq_of_signed lo hi a b, seq_of_signed lo' hi' c d)
