-- ===== src/Sdp/Stored/Scanned.antt =====
-- What is scanned from the line of a device.
use bt_ota_bluez_api.Common.{
  ℕ, ◌/◌, ◌%◌, ◌^◌, ◌≤◌, ◌<◌, ◌≡◌, refl, some, List, ◌∷◌, ◌++◌, arith, length,
}
use bt_ota_bluez_api.Common.Hex.{hex_digit, fixed_hex}
use bt_ota_bluez_api.Common.Scan.{skip_space, scan_hex, scan_word}
use bt_ota_bluez_api.Common.Scan.Printed.{scan_hex-fixed_hex, scan_word-append}
use bt_ota_bluez_api.Hid.Request.{Request}
use bt_ota_bluez_api.Sdp.Stored.{Info, scan_info}
use bt_ota_bluez_api.Sdp.Stored.Text.{IsValid, digits_of, length-digits_of, digits_of-IsWord, line}

-- A space before an item is skipped.
pub scan_hex_space : (w : ℕ) (s : List ℕ) → scan_hex w (b' ' ∷ s) ≡ scan_hex w s
unfolding scan_hex skip_space
scan_hex_space w s = refl

pub scan_word_space : (w : ℕ) (s : List ℕ) → scan_word w (b' ' ∷ s) ≡ scan_word w s
unfolding scan_word skip_space
scan_word_space w s = refl

-- The numbers at the start of a line, in the sizes of the fields.
pub scan_4 : (n : ℕ) (s : List ℕ) → n < 2 ^ 16 → scan_hex 4 (fixed_hex 4 n ++ s) ≡ some (n, s)
scan_4 n s h = scan_hex-fixed_hex 2 n s (omega arith)

pub scan_2 : (n : ℕ) (s : List ℕ) → n < 2 ^ 8 → scan_hex 2 (fixed_hex 2 n ++ s) ≡ some (n, s)
scan_2 n s h = scan_hex-fixed_hex 0 n s (omega arith)

pub scan_8 : (n : ℕ) (s : List ℕ) → n < 2 ^ 32 → scan_hex 8 (fixed_hex 8 n ++ s) ≡ some (n, s)
scan_8 n s h = scan_hex-fixed_hex 6 n s (omega arith)

scan_digits_of :
    (c : ℕ) (cs s : List ℕ)
    → length (c ∷ cs) ≤ 2047
    → scan_word 4095 (digits_of (c ∷ cs) ++ (b' ' ∷ s)) ≡ some (digits_of (c ∷ cs), b' ' ∷ s)
scan_digits_of c cs s h =
    scan_word-append 4095 b' ' (hex_digit (c / 16 % 16)) (hex_digit (c % 16) ∷ digits_of cs) s
      (digits_of-IsWord (c ∷ cs)) (omega (arith, length-digits_of cs)) refl

-- The name is what follows the spaces.
module _ (req : Request) (v : IsValid req) where
  abbrev pub info_of : List ℕ → Info
  info_of desc = record {
    vendor = req.vendor;
    product = req.product;
    version = req.version;
    subclass = req.subclass;
    country = req.country;
    parser = req.parser;
    desc = desc;
    flags = req.flags;
    rest = skip_space req.name;
  }

  pub scan_info-line :
      (c : ℕ) (cs : List ℕ)
      → length (c ∷ cs) ≤ 2047
      → scan_info (line req v (digits_of (c ∷ cs))) ≡ some (info_of (digits_of (c ∷ cs)))
  unfolding scan_info
  scan_info-line c cs short =
      let (a, b, d, e) = v.words in
      let (f, g) = v.chars in
      rw
        (
          scan_4 req.vendor _ a,
          scan_4 req.product _ b,
          scan_4 req.version _ d,
          scan_hex_space 2,
          scan_2 req.subclass _ f,
          scan_hex_space 2,
          scan_2 req.country _ g,
          scan_hex_space 4,
          scan_4 req.parser _ e,
          scan_word_space 4095,
          scan_digits_of c cs _ short,
          scan_hex_space 8,
          scan_8 req.flags _ v.long,
        )
        (unfold skip_space in refl)
