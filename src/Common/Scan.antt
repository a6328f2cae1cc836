-- ===== src/Common/Scan.antt =====
-- The conversions of `sscanf` that the sources use, on text as ASCII codes: whitespace, a literal
-- character, `%wX` into an `unsigned int` of 32 bits, and `%ws`. `none` is a text that does not match.
pub mod Printed
use bt_ota_bluez_api.Common.{
  ℕ, zero, suc, ◌+◌, ◌-◌, ◌*◌, ◌≤◌, ◌<◌, ◌%◌, ◌^◌, ◌≡◌, ◌≢◌, refl, ap, ◌∙◌, inl, inr, Bool, true,
  false, not, ◌&&◌, ◌||◌, Option, none, some, List, [], ◌∷◌, ◌++◌, arith, ltb, leb, ◌==◌,
  if◌then◌else◌, length, drop, Bool-cases, ◌>>=◌,
}
use bt_ota_bluez_api.Common.Hex.{hex_digit}

-- `isspace`, and whether a character is a hexadecimal digit.
abbrev pub is_space : ℕ → Bool
is_space c = (c == b' ') || (leb 9 c && leb c 13)

abbrev pub is_hex : ℕ → Bool
is_hex c = (leb b'0' c && leb c b'9') || (leb b'A' c && leb c b'F') || (leb b'a' c && leb c b'f')

abbrev pub hex_value : ℕ → ℕ
hex_value c = if leb c b'9' then c - b'0' else if leb c b'F' then c - b'A' + 10 else c - b'a' + 10

unfoldable pub skip_space : List ℕ → List ℕ
skip_space [] = []
skip_space (c ∷ s) = let rest = skip_space s in if is_space c then rest else c ∷ s

-- A character of the format.
abbrev pub scan_char : ℕ → List ℕ → Option (List ℕ)
scan_char ch [] = none
scan_char ch (c ∷ s) = if c == ch then some s else none

-- At most `w` digits, behind those that were read as `acc`.
unfoldable pub scan_digits : ℕ → ℕ → List ℕ → ℕ × List ℕ
scan_digits zero acc s = (acc, s)
scan_digits (suc w) acc [] = (acc, [])
scan_digits (suc w) acc (c ∷ s) =
    let rest = scan_digits w (acc * 16 + hex_value c) s in if is_hex c then rest else (acc, c ∷ s)

-- Whether the rest of a number that starts with 0 is an x and a digit, in `w` characters.
abbrev pub is_prefixed : ℕ → List ℕ → Bool
is_prefixed w [] = false
is_prefixed w (x ∷ []) = false
is_prefixed w (x ∷ d ∷ s) = leb 2 w && ((x == b'x') || (x == b'X')) && is_hex d

-- A number of at most `w` characters without a sign. An x without a digit behind it is not taken.
unfoldable pub scan_unsigned : ℕ → List ℕ → Option (ℕ × List ℕ)
scan_unsigned zero s = none
scan_unsigned (suc w) [] = none
scan_unsigned (suc w) (c ∷ s) =
    if is_prefixed w s && (c == b'0')
    then some (scan_digits (w - 1) 0 (drop 1 s))
    else if is_hex c
    then some (scan_digits (suc w) 0 (c ∷ s))
    else none

-- The negative of a number, as the `unsigned int` that it is stored in.
abbrev pub negated : Option (ℕ × List ℕ) → Option (ℕ × List ℕ)
negated none = none
negated (some (n, s)) = some ((2 ^ 32 - n) % 2 ^ 32, s)

abbrev pub scan_number : ℕ → List ℕ → Option (ℕ × List ℕ)
scan_number w [] = none
scan_number w (c ∷ s) =
    if c == b'+'
    then scan_unsigned (w - 1) s
    else if c == b'-'
    then negated (scan_unsigned (w - 1) s)
    else scan_unsigned w (c ∷ s)

unfoldable pub scan_hex : ℕ → List ℕ → Option (ℕ × List ℕ)
unfolding scan_unsigned scan_digits skip_space
scan_hex w s = scan_number w (skip_space s)

-- The word of at most `w` characters at the start of a text.
unfoldable pub split_word : ℕ → List ℕ → List ℕ × List ℕ
split_word zero s = ([], s)
split_word (suc w) [] = ([], [])
split_word (suc w) (c ∷ s) =
    let (word, rest) = split_word w s in if is_space c then ([], c ∷ s) else (c ∷ word, rest)

abbrev pub nonempty_word : List ℕ × List ℕ → Option (List ℕ × List ℕ)
nonempty_word ([], rest) = none
nonempty_word (c ∷ word, rest) = some (c ∷ word, rest)

unfoldable pub scan_word : ℕ → List ℕ → Option (List ℕ × List ℕ)
unfolding split_word skip_space
scan_word w s = nonempty_word (split_word w (skip_space s))

-- The digits that are printed are read back.
pub hex_digit-is_hex :
    (d : ℕ)
    → d < 16
    → (is_hex (hex_digit d) ≡ true)
      × (hex_value (hex_digit d) ≡ d)
      × (is_space (hex_digit d) ≡ false)
      × ((hex_digit d == b'x') ≡ false)
      × ((hex_digit d == b'X') ≡ false)
      × ((hex_digit d == b'+') ≡ false)
      × ((hex_digit d == b'-') ≡ false)
hex_digit-is_hex d h = ground arith

pub scan_digits-cons :
    (w acc d : ℕ) (s : List ℕ)
    → d < 16
    → scan_digits (suc w) acc (hex_digit d ∷ s) ≡ scan_digits w (acc * 16 + d) s
unfolding scan_digits
scan_digits-cons w acc d s h =
    let (hex, value, _, _, _, _, _) = hex_digit-is_hex d h in rw (hex, value) refl

no_prefix : (w e : ℕ) (s : List ℕ) → e < 16 → is_prefixed w (hex_digit e ∷ s) ≡ false
no_prefix w e [] k = refl
no_prefix w e (d ∷ s) k =
    let (_, _, _, x, upper, _, _) = hex_digit-is_hex e k in rw (x, upper) (ground arith)

-- A text that starts with two digits is a number without a sign or a prefix.
pub scan_hex-digits :
    (w d e : ℕ) (s : List ℕ)
    → d < 16
    → e < 16
    → scan_hex (suc w) (hex_digit d ∷ hex_digit e ∷ s)
      ≡ some (scan_digits (suc w) 0 (hex_digit d ∷ hex_digit e ∷ s))
unfolding scan_hex scan_unsigned skip_space
scan_hex-digits w d e s h k =
    let (hex, _, word, _, _, plus, minus) = hex_digit-is_hex d h in
    let (_, _, _, x, upper, _, _) = hex_digit-is_hex e k in
    rw (word, plus, minus, no_prefix w e s k, hex) refl
