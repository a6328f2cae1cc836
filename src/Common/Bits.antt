-- ===== src/Common/Bits.antt =====
-- The bit operators at variables: what they are on fields of known width.
pub mod Xor
use Prim.Native.Nat.{digits, differ, max, bit_and-bitwise, bit_or-bitwise, bit_xor-bitwise}
use native.Mathlib.Nat.{pow-suc}
use bt_ota_bluez_api.Common.{
  ℕ, zero, suc, ◌+◌, ◌*◌, ◌/◌, ◌%◌, ◌^◌, ◌≤◌, ◌<◌, min, bit_and, bit_or, bit_xor, ◌≡◌, refl, ap,
  ◌∙◌, arith,
}

-- The value does not depend on the rounds, once they are as many as the first number.
enough_rounds :
    (rest : ℕ → ℕ) (op : ℕ → ℕ → ℕ) (m n x y : ℕ)
    → x ≤ m
    → x ≤ n
    → digits rest op m x y ≡ digits rest op n x y
enough_rounds rest op (suc m) (suc n) (suc x) y hm hn =
    rw (enough_rounds rest op m n (suc x / 2) (y / 2) (omega arith) (omega arith))
enough_rounds rest op (suc m) (suc n) zero y hm hn = refl
enough_rounds rest op (suc m) zero zero y hm hn = refl
enough_rounds rest op zero (suc n) zero y hm hn = refl
enough_rounds rest op zero zero zero y hm hn = refl
enough_rounds rest op m zero (suc x) y hm hn = absurd (omega arith)
enough_rounds rest op zero (suc n) (suc x) y hm hn = absurd (omega arith)

lowest_digit :
    (rest : ℕ → ℕ) (op : ℕ → ℕ → ℕ) (x y : ℕ)
    → digits rest op (suc x) (suc x) y
      ≡ digits rest op (suc x / 2) (suc x / 2) (y / 2) * 2 + op (suc x % 2) (y % 2)
lowest_digit rest op x y =
    omega
      (arith, enough_rounds rest op x (suc x / 2) (suc x / 2) (y / 2) (omega arith) (omega arith))

pub bit_or_digit : (x y : ℕ) → bit_or x y ≡ bit_or (x / 2) (y / 2) * 2 + max (x % 2) (y % 2)
bit_or_digit zero y = simp bit_or-bitwise (omega arith)
bit_or_digit (suc x) y = simp bit_or-bitwise (lowest_digit (λ b. b) max x y)

pub bit_and_digit : (x y : ℕ) → bit_and x y ≡ bit_and (x / 2) (y / 2) * 2 + min (x % 2) (y % 2)
bit_and_digit zero y = simp bit_and-bitwise (omega arith)
bit_and_digit (suc x) y = simp bit_and-bitwise (lowest_digit (λ b. 0) min x y)

pub bit_xor_digit : (x y : ℕ) → bit_xor x y ≡ bit_xor (x / 2) (y / 2) * 2 + differ (x % 2) (y % 2)
bit_xor_digit zero y = simp bit_xor-bitwise (omega arith)
bit_xor_digit (suc x) y = simp bit_xor-bitwise (lowest_digit (λ b. b) differ x y)

bit_or-zero : (k x : ℕ) → x < 2 ^ k → bit_or x 0 ≡ x
bit_or-zero zero x h = ground (arith, bit_or_digit x 0)
bit_or-zero (suc k) x h =
    omega (arith, bit_or_digit x 0, pow-suc 2 k, bit_or-zero k (x / 2) (omega (arith, pow-suc 2 k)))

pub double : (q k : ℕ) → q * 2 ^ suc k ≡ q * 2 ^ k * 2
double q k = omega (arith, ap (λ (t : ℕ). q * t) (pow-suc 2 k))

-- `lo | (q << k)` is a sum where `lo` fits `k` bits.
pub bit_or_fields : (k lo q : ℕ) → lo < 2 ^ k → bit_or lo (q * 2 ^ k) ≡ lo + q * 2 ^ k
bit_or_fields zero lo q h = let e : lo ≡ 0 = omega arith in rw e (simp bit_or-bitwise (omega arith))
bit_or_fields (suc k) lo q h =
    ground
      (arith, double q k, pow-suc 2 k, bit_or_digit lo (q * 2 ^ suc k), bit_or_fields k (lo / 2) q)

differ-zero : (x : ℕ) → differ x 0 ≡ x
differ-zero zero = refl
differ-zero (suc x) = refl

pub differ-lt : (x y : ℕ) → x < 2 → y < 2 → differ x y < 2
differ-lt zero y hx hy = hy
differ-lt (suc x) zero hx hy = hx
differ-lt (suc zero) (suc y) hx hy = omega arith
differ-lt (suc (suc x)) (suc y) hx hy = absurd (omega arith)

pub bit_xor-lt : (k x y : ℕ) → x < 2 ^ k → y < 2 ^ k → bit_xor x y < 2 ^ k
bit_xor-lt zero x y hx hy =
    let ex : x ≡ 0 = omega arith in let ey : y ≡ 0 = omega arith in rw (ex, ey) (omega arith)
bit_xor-lt (suc k) x y hx hy = omega (
  arith,
  bit_xor_digit x y,
  pow-suc 2 k,
  differ-lt (x % 2) (y % 2) (omega arith) (omega arith),
  bit_xor-lt k (x / 2) (y / 2) (omega (arith, pow-suc 2 k)) (omega (arith, pow-suc 2 k)),
)

-- `^` works on the bits below `k` and on those from `k` on by themselves.
pub bit_xor_fields :
    (k q x p y : ℕ)
    → x < 2 ^ k
    → y < 2 ^ k
    → bit_xor (q * 2 ^ k + x) (p * 2 ^ k + y) ≡ bit_xor q p * 2 ^ k + bit_xor x y
bit_xor_fields zero q x p y hx hy =
    let e : q * 2 ^ 0 + x ≡ q = omega arith in
    let e' : p * 2 ^ 0 + y ≡ p = omega arith in
    let ex : x ≡ 0 = omega arith in let ey : y ≡ 0 = omega arith in rw (e, e', ex, ey) (omega arith)
bit_xor_fields (suc k) q x p y hx hy =
    bit_xor_digit (q * 2 ^ suc k + x) (p * 2 ^ suc k + y)
    ∙ rw (upper q x, upper p y, lowest q x, lowest p y)
        (rw (bit_xor_fields k q (x / 2) p (y / 2) (fits x hx) (fits y hy))
          (omega (arith, double (bit_xor q p) k, bit_xor_digit x y)))
  where
    upper : (n r : ℕ) → (n * 2 ^ suc k + r) / 2 ≡ n * 2 ^ k + r / 2
    upper n r = omega (arith, double n k)

    lowest : (n r : ℕ) → (n * 2 ^ suc k + r) % 2 ≡ r % 2
    lowest n r = omega (arith, double n k)

    fits : (r : ℕ) → r < 2 ^ suc k → r / 2 < 2 ^ k
    fits r h = omega (arith, pow-suc 2 k)

pub bit_xor-zero : (n x : ℕ) → x ≤ n → bit_xor x 0 ≡ x
bit_xor-zero n zero h = refl
bit_xor-zero zero (suc x) h = absurd (omega arith)
bit_xor-zero (suc n) (suc x) h = omega (
  arith,
  bit_xor_digit (suc x) 0,
  differ-zero (suc x % 2),
  bit_xor-zero n (suc x / 2) (omega arith),
)
  where
    differ-zero : (d : ℕ) → differ d 0 ≡ d
    differ-zero zero = refl
    differ-zero (suc d) = refl

bit_and-zero : (n x : ℕ) → x ≤ n → bit_and x 0 ≡ 0
bit_and-zero n zero h = refl
bit_and-zero zero (suc x) h = absurd (omega arith)
bit_and-zero (suc n) (suc x) h =
    omega (arith, bit_and_digit (suc x) 0, bit_and-zero n (suc x / 2) (omega arith))

min-zero : (x : ℕ) → min x 0 ≡ 0
min-zero x = omega arith

-- A mask that starts at bit `k` leaves no bit below.
pub bit_and_fields :
    (k q lo p : ℕ) → lo < 2 ^ k → bit_and (q * 2 ^ k + lo) (p * 2 ^ k) ≡ bit_and q p * 2 ^ k
bit_and_fields zero q lo p h =
    let e : q * 2 ^ 0 + lo ≡ q = omega arith in
    let e' : p * 2 ^ 0 ≡ p = omega arith in rw (e, e') (omega arith)
bit_and_fields (suc k) q lo p h =
    bit_and_digit (q * 2 ^ suc k + lo) (p * 2 ^ suc k)
    ∙ rw (upper, upper', lowest', min-zero, bit_and_fields k q (lo / 2) p fits)
        (omega (arith, double (bit_and q p) k))
  where
    upper : (q * 2 ^ suc k + lo) / 2 ≡ q * 2 ^ k + lo / 2
    upper = omega (arith, double q k)

    upper' : p * 2 ^ suc k / 2 ≡ p * 2 ^ k
    upper' = omega (arith, double p k)

    lowest' : p * 2 ^ suc k % 2 ≡ 0
    lowest' = omega (arith, double p k)

    fits : lo / 2 < 2 ^ k
    fits = omega (arith, pow-suc 2 k)

-- The lowest byte.
pub bit_and_byte : (x : ℕ) → bit_and x 0xff ≡ x % 2 ^ 8
bit_and_byte x = omega (arith, low_half x, high_half (x / 2 / 2 / 2 / 2))
  where
    high_half : (y : ℕ) → bit_and y 15 ≡ y % 16
    high_half y = omega (
      arith,
      bit_and_digit y 15,
      bit_and_digit (y / 2) 7,
      bit_and_digit (y / 2 / 2) 3,
      bit_and_digit (y / 2 / 2 / 2) 1,
      bit_and-zero (y / 2 / 2 / 2 / 2) (y / 2 / 2 / 2 / 2) (omega arith),
    )

    low_half : (y : ℕ) → bit_and y 0xff ≡ bit_and (y / 2 / 2 / 2 / 2) 15 * 16 + y % 16
    low_half y = omega (
      arith,
      bit_and_digit y 0xff,
      bit_and_digit (y / 2) 127,
      bit_and_digit (y / 2 / 2) 63,
      bit_and_digit (y / 2 / 2 / 2) 31,
    )

-- The byte above the lowest.
pub bit_and_high_byte : (x : ℕ) → bit_and x 0xff00 / 2 ^ 8 ≡ x / 2 ^ 8 % 2 ^ 8
bit_and_high_byte x = omega (
  arith,
  split,
  bit_and_fields 8 (x / 2 ^ 8) (x % 2 ^ 8) 0xff (omega arith),
  bit_and_byte (x / 2 ^ 8),
)
  where
    split : bit_and x 0xff00 ≡ bit_and (x / 2 ^ 8 * 2 ^ 8 + x % 2 ^ 8) (0xff * 2 ^ 8)
    split = ap (λ (y : ℕ). bit_and y 0xff00) (omega arith)
