-- ===== src/Sdp/Stored/Text.antt =====
-- The text of a stored device: its length, and what is scanned from it.
use bt_ota_bluez_api.Common.{
  ℕ, ◌+◌, ◌-◌, ◌*◌, ◌/◌, ◌%◌, ◌^◌, ◌<◌, ◌≡◌, refl, some, List, [], ◌∷◌, ◌++◌, arith, length,
  length-append, Bytes,
}
use bt_ota_bluez_api.Common.Hex.{
  hex_digit, fixed_hex, print_hex, print_hex-fixed_hex, length-fixed_hex,
}
use bt_ota_bluez_api.Common.Scan.{hex_digit-is_hex}
use bt_ota_bluez_api.Common.Scan.Printed.{IsWord}
use bt_ota_bluez_api.Hid.Request.{Request}
use bt_ota_bluez_api.Sdp.Stored.{hex_bytes, info_text, info_size, byte_of_digits, bytes_of_hex}

-- The fields have the sizes that they have in the kernel's header, and the descriptor has the size
-- that is given for it.
pub record IsValid (req : Request) : Type 0 where
  pub words :
      (req.vendor < 2 ^ 16)
      × (req.product < 2 ^ 16)
      × (req.version < 2 ^ 16)
      × (req.parser < 2 ^ 16)
  pub chars : (req.subclass < 2 ^ 8) × (req.country < 2 ^ 8)
  pub long : req.flags < 2 ^ 32
  pub described : (req.rd_size ≡ length req.rd_data) × Bytes req.rd_data

-- The digits of a descriptor.
abbrev pub digits_of : List ℕ → List ℕ
digits_of [] = []
digits_of (c ∷ cs) = hex_digit (c / 16 % 16) ∷ hex_digit (c % 16) ∷ digits_of cs

print_byte : (c : ℕ) → c < 256 → print_hex 2 c ≡ hex_digit (c / 16 % 16) ∷ hex_digit (c % 16) ∷ []
unfolding fixed_hex
print_byte c h = print_hex-fixed_hex 2 c (ground arith)

pub hex_bytes-digits_of : (cs : List ℕ) → Bytes cs → hex_bytes (length cs) cs ≡ some (digits_of cs)
unfolding hex_bytes
hex_bytes-digits_of [] h = refl
hex_bytes-digits_of (c ∷ cs) (hc, h) = rw (hex_bytes-digits_of cs h, print_byte c hc) refl

pub length-digits_of : (cs : List ℕ) → length (digits_of cs) ≡ length cs * 2
length-digits_of [] = refl
length-digits_of (c ∷ cs) = omega (arith, length-digits_of cs)

pub digits_of-IsWord : (cs : List ℕ) → IsWord (digits_of cs)
digits_of-IsWord [] = tt
digits_of-IsWord (c ∷ cs) = (
  (hex_digit-is_hex (c / 16 % 16) (omega arith)).2,
  ((hex_digit-is_hex (c % 16) (omega arith)).2, digits_of-IsWord cs),
)

byte_of_digits-hex_digit :
    (d e : ℕ) → d < 16 → e < 16 → byte_of_digits (hex_digit d) (hex_digit e) ≡ d * 16 + e
byte_of_digits-hex_digit d e h k =
    let (hd, vd, _, _, _, _, _) = hex_digit-is_hex d h in
    let (he, ve, _, _, _, _, _) = hex_digit-is_hex e k in rw (hd, he, vd, ve) refl

pub bytes_of_hex-digits_of : (cs : List ℕ) → Bytes cs → bytes_of_hex (digits_of cs) ≡ cs
unfolding bytes_of_hex
bytes_of_hex-digits_of [] h = refl
bytes_of_hex-digits_of (c ∷ cs) (hc, h) =
    let value : c / 16 % 16 * 16 + c % 16 ≡ c = omega arith in
    rw
      (
        byte_of_digits-hex_digit (c / 16 % 16) (c % 16) (omega arith) (omega arith),
        value,
        bytes_of_hex-digits_of cs h,
      )
      refl

-- The text with the numbers written out.
module _ (req : Request) (v : IsValid req) where
  abbrev pub behind_desc : List ℕ
  behind_desc = b' ' ∷ (fixed_hex 8 req.flags ++ (b' ' ∷ req.name))

  abbrev pub line : List ℕ → List ℕ
  line desc =
      fixed_hex 4 req.vendor
      ++ (b':'
          ∷ (fixed_hex 4 req.product
              ++ (b':'
                  ∷ (fixed_hex 4 req.version
                      ++ (b' '
                          ∷ (fixed_hex 2 req.subclass
                              ++ (b' '
                                  ∷ (fixed_hex 2 req.country
                                      ++ (b' '
                                          ∷ (fixed_hex 4 req.parser
                                              ++ (b' ' ∷ (desc ++ behind_desc))))))))))))

  pub info_text-line : (desc : List ℕ) → info_text req desc ≡ line desc
  unfolding info_text
  info_text-line desc =
      let (a, b, c, d) = v.words in
      let (e, f) = v.chars in
      rw
        (
          print_hex-fixed_hex 4 req.vendor (ground arith),
          print_hex-fixed_hex 4 req.product (ground arith),
          print_hex-fixed_hex 4 req.version (ground arith),
          print_hex-fixed_hex 2 req.subclass (ground arith),
          print_hex-fixed_hex 2 req.country (ground arith),
          print_hex-fixed_hex 4 req.parser (ground arith),
          print_hex-fixed_hex 8 req.flags (ground arith),
        )
        refl

  -- The line is as long as the buffer has room for.
  pub length-line :
      (desc : List ℕ) → length desc ≡ req.rd_size * 2 → length (line desc) ≡ info_size req - 2
  length-line desc h = simp (length-append, length-fixed_hex) (omega arith)
