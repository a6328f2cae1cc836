-- ===== src/Common/Bits/Xor.antt =====
-- `^` is associative, and each number is its own inverse.
use Prim.Native.Nat.{differ}
use native.Mathlib.Nat.{pow-suc}
use mathlib.Core.Path.{ap₂}
use bt_ota_bluez_api.Common.{
  ℕ, zero, suc, ◌+◌, ◌*◌, ◌/◌, ◌%◌, ◌^◌, ◌<◌, ◌≤◌, bit_xor, ◌≡◌, refl, sym, ap, ◌∙◌, arith,
}
use bt_ota_bluez_api.Common.Bits.{bit_xor_digit, bit_xor-zero, differ-lt}

-- The halves and the lowest bits.
xor_half : (x y : ℕ) → bit_xor x y / 2 ≡ bit_xor (x / 2) (y / 2)
xor_half x y =
    omega (arith, bit_xor_digit x y, differ-lt (x % 2) (y % 2) (omega arith) (omega arith))

xor_low : (x y : ℕ) → bit_xor x y % 2 ≡ differ (x % 2) (y % 2)
xor_low x y =
    omega (arith, bit_xor_digit x y, differ-lt (x % 2) (y % 2) (omega arith) (omega arith))

differ_assoc : (x y z : ℕ) → x < 2 → y < 2 → z < 2 → differ (differ x y) z ≡ differ x (differ y z)
differ_assoc zero zero zero h k l = refl
differ_assoc zero zero (suc z) h k l = refl
differ_assoc zero (suc y) z h k l = refl
differ_assoc (suc zero) zero zero h k l = refl
differ_assoc (suc zero) zero (suc z) h k l = refl
differ_assoc (suc zero) (suc zero) zero h k l = refl
differ_assoc (suc zero) (suc zero) (suc zero) h k l = refl
differ_assoc (suc zero) (suc zero) (suc (suc z)) h k l = absurd (omega arith)
differ_assoc (suc zero) (suc (suc y)) z h k l = absurd (omega arith)
differ_assoc (suc (suc x)) y z h k l = absurd (omega arith)

below_assoc :
    (k x y z : ℕ)
    → x < 2 ^ k
    → y < 2 ^ k
    → z < 2 ^ k
    → bit_xor (bit_xor x y) z ≡ bit_xor x (bit_xor y z)
below_assoc zero x y z hx hy hz =
    let ex : x ≡ 0 = omega arith in
    let ey : y ≡ 0 = omega arith in let ez : z ≡ 0 = omega arith in rw (ex, ey, ez) refl
below_assoc (suc k) x y z hx hy hz =
    bit_xor_digit (bit_xor x y) z
    ∙ ap₂ (λ h l. h * 2 + l)
        (ap (λ h. bit_xor h (z / 2)) (xor_half x y)
          ∙ below_assoc k (x / 2) (y / 2) (z / 2) (half x hx) (half y hy) (half z hz)
          ∙ ap (bit_xor (x / 2)) (sym (xor_half y z)))
        (ap (λ l. differ l (z % 2)) (xor_low x y)
          ∙ differ_assoc (x % 2) (y % 2) (z % 2) (omega arith) (omega arith) (omega arith)
          ∙ ap (differ (x % 2)) (sym (xor_low y z)))
    ∙ sym (bit_xor_digit x (bit_xor y z))
  where
    half : (r : ℕ) → r < 2 ^ suc k → r / 2 < 2 ^ k
    half r h = omega (arith, pow-suc 2 k)

lt_pow : (n : ℕ) → n < 2 ^ n
lt_pow zero = omega arith
lt_pow (suc n) = omega (arith, lt_pow n, pow-suc 2 n)

pub bit_xor_assoc : (x y z : ℕ) → bit_xor (bit_xor x y) z ≡ bit_xor x (bit_xor y z)
bit_xor_assoc x y z =
    let n = lt_pow (x + y + z) in
    below_assoc (x + y + z) x y z (omega arith) (omega arith) (omega arith)

differ_self : (x : ℕ) → x < 2 → differ x x ≡ 0
differ_self zero h = refl
differ_self (suc zero) h = refl
differ_self (suc (suc x)) h = absurd (omega arith)

bit_xor_self : (n x : ℕ) → x ≤ n → bit_xor x x ≡ 0
bit_xor_self n zero h = refl
bit_xor_self zero (suc x) h = absurd (omega arith)
bit_xor_self (suc n) (suc x) h = omega (
  arith,
  bit_xor_digit (suc x) (suc x),
  differ_self (suc x % 2) (omega arith),
  bit_xor_self n (suc x / 2) (omega arith),
)

pub xor_cancel : (x y z : ℕ) → bit_xor x z ≡ bit_xor y z → x ≡ y
xor_cancel x y z e = sym (undo x) ∙ ap (λ n. bit_xor n z) e ∙ undo y
  where
    undo : (w : ℕ) → bit_xor (bit_xor w z) z ≡ w
    undo w =
        bit_xor_assoc w z z
        ∙ ap (bit_xor w) (bit_xor_self z z (omega arith))
        ∙ bit_xor-zero w w (omega arith)
