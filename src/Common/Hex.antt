-- ===== src/Common/Hex.antt =====
-- Hexadecimal text as `printf` writes it: `%0wX` of a 32-bit number, as ASCII codes.
use Prim.Native.Nat.{max}
use bt_ota_bluez_api.Common.{
  ℕ, zero, suc, ◌+◌, ◌-◌, ◌/◌, ◌%◌, ◌≤◌, ◌≡◌, refl, ap, List, [], ◌∷◌, ◌++◌, arith, ltb,
  if◌then◌else◌, length, length-append,
}

abbrev pub hex_digit : ℕ → ℕ
hex_digit d = if ltb d 10 then b'0' + d else b'A' + (d - 10)

-- The last `k` digits, the highest first.
unfoldable pub fixed_hex : ℕ → ℕ → List ℕ
fixed_hex zero n = []
fixed_hex (suc k) n = fixed_hex k (n / 16) ++ (hex_digit (n % 16) ∷ [])

-- How many digits a 32-bit number has.
abbrev pub hex_width : ℕ → ℕ
hex_width n =
    if ltb n 0x10
    then 1
    else if ltb n 0x100
    then 2
    else if ltb n 0x1000
    then 3
    else if ltb n 0x10000
    then 4
    else if ltb n 0x100000
    then 5
    else if ltb n 0x1000000
    then 6
    else if ltb n 0x10000000
    then 7
    else 8

-- `%0wX`: at least `w` digits.
unfoldable pub print_hex : ℕ → ℕ → List ℕ
unfolding fixed_hex
print_hex w n = fixed_hex (max w (hex_width n)) n

pub length-fixed_hex : (k n : ℕ) → length (fixed_hex k n) ≡ k
unfolding fixed_hex
length-fixed_hex zero n = refl
length-fixed_hex (suc k) n = omega (
  arith,
  length-append (fixed_hex k (n / 16)) (hex_digit (n % 16) ∷ []),
  length-fixed_hex k (n / 16),
)

pub length-print_hex : (w n : ℕ) → length (print_hex w n) ≡ max w (hex_width n)
length-print_hex w n = unfold print_hex in length-fixed_hex (max w (hex_width n)) n

-- A number that has no more digits than the width is written with just as many.
pub print_hex-fixed_hex : (w n : ℕ) → hex_width n ≤ w → print_hex w n ≡ fixed_hex w n
unfolding print_hex
print_hex-fixed_hex w n h =
    let e : max w (hex_width n) ≡ w = ground arith in ap (λ k. fixed_hex k n) e
