-- ===== src/Common/Scan/Printed.antt =====
-- What is printed is scanned back.
use mathlib.Core.List.{append_assoc}
use mathlib.Core.Path.{subst}
use bt_ota_bluez_api.Common.{
  ℕ, zero, suc, ◌+◌, ◌*◌, ◌/◌, ◌%◌, ◌≤◌, ◌<◌, ◌≡◌, refl, sym, ap, ◌∙◌, true, false, some, List, [],
  ◌∷◌, ◌++◌, arith, length,
}
use bt_ota_bluez_api.Common.Hex.{hex_digit, fixed_hex}
use bt_ota_bluez_api.Common.Scan.{
  is_space, skip_space, scan_digits, scan_hex, split_word, scan_word, nonempty_word,
  hex_digit-is_hex, scan_digits-cons, scan_hex-digits,
}

-- `n` has at most `k` digits.
abbrev pub HasDigits : ℕ → ℕ → Type 0
HasDigits zero n = n ≡ 0
HasDigits (suc k) n = HasDigits k (n / 16)

scan_digits-fixed_hex :
    (k j n : ℕ) (s : List ℕ)
    → HasDigits k n
    → scan_digits (k + j) 0 (fixed_hex k n ++ s) ≡ scan_digits j n s
unfolding fixed_hex
scan_digits-fixed_hex zero j n s h =
    let e : 0 + j ≡ j = omega arith in rw e (ap (λ m. scan_digits j m s) (sym h))
scan_digits-fixed_hex (suc k) j n s h =
    let e : suc k + j ≡ k + suc j = omega arith in
    let value : n / 16 * 16 + n % 16 ≡ n = omega arith in
    rw (e, append_assoc (fixed_hex k (n / 16)) (hex_digit (n % 16) ∷ []) s)
      (scan_digits-fixed_hex k (suc j) (n / 16) (hex_digit (n % 16) ∷ s) h
        ∙ scan_digits-cons j (n / 16) (n % 16) s (omega arith)
        ∙ ap (λ m. scan_digits j m s) value)

-- A text that starts with two digits.
abbrev StartsWithDigits : List ℕ → Type 0
StartsWithDigits s =
    (d : ℕ) × (e : ℕ) × (rest : List ℕ) × (s ≡ hex_digit d ∷ hex_digit e ∷ rest)
    × (d < 16)
    × (e < 16)

fixed_hex-StartsWithDigits :
    (k n : ℕ) (s : List ℕ) → StartsWithDigits (fixed_hex (suc (suc k)) n ++ s)
unfolding fixed_hex
fixed_hex-StartsWithDigits zero n s = (n / 16 % 16, n % 16, s, refl, omega arith, omega arith)
fixed_hex-StartsWithDigits (suc k) n s =
    let (d, e, rest, same, hd, he) =
      fixed_hex-StartsWithDigits k (n / 16) (hex_digit (n % 16) ∷ s) in
    (
      d,
      e,
      rest,
      append_assoc (fixed_hex (suc (suc k)) (n / 16)) (hex_digit (n % 16) ∷ []) s ∙ same,
      hd,
      he,
    )

-- A number printed with two digits or more is read back, and the text behind it is left.
pub scan_hex-fixed_hex :
    (k n : ℕ) (s : List ℕ)
    → HasDigits (suc (suc k)) n
    → scan_hex (suc (suc k)) (fixed_hex (suc (suc k)) n ++ s) ≡ some (n, s)
scan_hex-fixed_hex k n s h =
    let (d, e, rest, same, hd, he) = fixed_hex-StartsWithDigits k n s in
    let width : suc (suc k) + 0 ≡ suc (suc k) = omega arith in
    ap (scan_hex (suc (suc k))) same
    ∙ scan_hex-digits (suc k) d e rest hd he
    ∙ ap some (
        ap (scan_digits (suc (suc k)) 0) (sym same)
        ∙ ap (λ w. scan_digits w 0 (fixed_hex (suc (suc k)) n ++ s)) (sym width)
        ∙ scan_digits-fixed_hex (suc (suc k)) 0 n s h
        ∙ unfold scan_digits in refl)

-- No character of the word is whitespace.
abbrev pub IsWord : List ℕ → Type 0
IsWord [] = Unit
IsWord (c ∷ s) = (is_space c ≡ false) × IsWord s

split_word-append :
    (w c : ℕ) (word s : List ℕ)
    → IsWord word
    → length word ≤ w
    → is_space c ≡ true
    → split_word w (word ++ (c ∷ s)) ≡ (word, c ∷ s)
unfolding split_word
split_word-append zero c [] s h k space = refl
split_word-append (suc w) c [] s h k space = rw space refl
split_word-append zero c (d ∷ word) s h k space = absurd (omega arith)
split_word-append (suc w) c (d ∷ word) s (hd, h) k space =
    rw (hd, split_word-append w c word s h (omega arith) space) refl

-- A word that is not empty is read back, up to the whitespace behind it.
pub scan_word-append :
    (w c d : ℕ) (word s : List ℕ)
    → IsWord (d ∷ word)
    → suc (length word) ≤ w
    → is_space c ≡ true
    → scan_word w ((d ∷ word) ++ (c ∷ s)) ≡ some (d ∷ word, c ∷ s)
unfolding scan_word skip_space
scan_word-append w c d word s (hd, h) k space =
    rw hd (ap nonempty_word (split_word-append w c (d ∷ word) s (hd, h) k space))

pub fixed_hex-IsWord : (k n : ℕ) (s : List ℕ) → IsWord s → IsWord (fixed_hex k n ++ s)
unfolding fixed_hex
fixed_hex-IsWord zero n s h = h
fixed_hex-IsWord (suc k) n s h =
    subst IsWord (sym (append_assoc (fixed_hex k (n / 16)) (hex_digit (n % 16) ∷ []) s)) (
      fixed_hex-IsWord k (n / 16) (hex_digit (n % 16) ∷ s)
        ((hex_digit-is_hex (n % 16) (omega arith)).2, h))
