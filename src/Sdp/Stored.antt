-- ===== src/Sdp/Stored.antt =====
-- `store_device_info` and `get_stored_device_info` of jni/sdp.c: a line of text for each device.
pub mod Text
pub mod Scanned
pub mod RoundTrip
pub mod Empty
use bt_ota_bluez_api.Common.{
  ℕ, zero, suc, ◌+◌, ◌-◌, ◌*◌, ◌/◌, ◌%◌, ◌^◌, ◌≡◌, Bool, true, false, ◌||◌, Option, none, some,
  List, [], ◌∷◌, ◌++◌, ◌==◌, if◌then◌else◌, length, take, ◌>>=◌,
}
use bt_ota_bluez_api.Common.Int.{ℤ, pos}
use bt_ota_bluez_api.Common.Hex.{print_hex}
use bt_ota_bluez_api.Common.Scan.{is_hex, hex_value, skip_space, scan_char, scan_hex, scan_word}
use bt_ota_bluez_api.Hid.Request.{Request}

-- A text without the end of a line.
abbrev pub IsLine : List ℕ → Type 0
IsLine [] = Unit
IsLine (c ∷ s) = (((c == b'\n') || (c == b'\r')) ≡ false) × IsLine s

-- The text files of BlueZ (textfile.h): a value of one line for each key of a file. What was put
-- without an error is what is got.
pub record TextFiles : Type 1 where
  pub Files : Type 0
  pub create_file : List ℕ → Files → Files
  pub textfile_put : List ℕ → List ℕ → List ℕ → Files → ℤ × Files
  pub textfile_get : List ℕ → List ℕ → Files → Option (List ℕ)
  pub get-put :
      (file key value : List ℕ) (files : Files)
      → IsLine value
      → (textfile_put file key value files).0 ≡ pos 0
      → textfile_get file key (textfile_put file key value files).1 ≡ some value

-- The loop that writes two digits for each byte of the descriptor; `none` past the end of the data.
unfoldable pub hex_bytes : ℕ → List ℕ → Option (List ℕ)
unfolding print_hex
hex_bytes zero bytes = some []
hex_bytes (suc left) [] = none
hex_bytes (suc left) (c ∷ bytes) = do desc ← hex_bytes left bytes; some (print_hex 2 c ++ desc)

-- The size of the buffer for the line.
abbrev pub info_size : Request → ℕ
info_size req = 15 + 3 + 3 + 5 + req.rd_size * 2 + 1 + 9 + length req.name + 2

-- `"%04X:%04X:%04X %02X %02X %04X %s %08X %s"`.
unfoldable pub info_text : Request → List ℕ → List ℕ
unfolding print_hex
info_text req desc =
    print_hex 4 req.vendor
    ++ (b':'
        ∷ (print_hex 4 req.product
            ++ (b':'
                ∷ (print_hex 4 req.version
                    ++ (b' '
                        ∷ (print_hex 2 req.subclass
                            ++ (b' '
                                ∷ (print_hex 2 req.country
                                    ++ (b' '
                                        ∷ (print_hex 4 req.parser
                                            ++ (b' '
                                                ∷ (desc
                                                    ++ (b' '
                                                        ∷ (print_hex 8 req.flags
                                                            ++ (b' ' ∷ req.name)))))))))))))))

-- The same format without its last item, scanned; and the rest of the text behind it, where the
-- name is.
pub record Info : Type 0 where
  pub vendor : ℕ
  pub product : ℕ
  pub version : ℕ
  pub subclass : ℕ
  pub country : ℕ
  pub parser : ℕ
  pub desc : List ℕ
  pub flags : ℕ
  pub rest : List ℕ

-- `none` is a text that does not match up to `%n`: the code goes on with a position that was not set.
unfoldable pub scan_info : List ℕ → Option Info
scan_info s = do
  (vendor, s₁) ← scan_hex 4 s
  s₂ ← scan_char b':' s₁
  (product, s₃) ← scan_hex 4 s₂
  s₄ ← scan_char b':' s₃
  (version, s₅) ← scan_hex 4 s₄
  (subclass, s₆) ← scan_hex 2 s₅
  (country, s₇) ← scan_hex 2 s₆
  (parser, s₈) ← scan_hex 4 s₇
  (desc, s₉) ← scan_word 4095 s₈
  (flags, s₁₀) ← scan_hex 8 s₉
  some (record {
    vendor = vendor;
    product = product;
    version = version;
    subclass = subclass;
    country = country;
    parser = parser;
    desc = desc;
    flags = flags;
    rest = skip_space s₁₀;
  })

-- `(uint8_t) strtol(tmp, NULL, 16)` of two characters without whitespace.
abbrev pub byte_of_digits : ℕ → ℕ → ℕ
byte_of_digits c d =
    if is_hex c
    then (if is_hex d then hex_value c * 16 + hex_value d else hex_value c)
    else if is_hex d
    then (if c == b'+' then hex_value d else if c == b'-' then (256 - hex_value d) % 256 else 0)
    else 0

-- The loop that reads the descriptor back, two characters at a time.
unfoldable pub bytes_of_hex : List ℕ → List ℕ
bytes_of_hex [] = []
bytes_of_hex (c ∷ []) = []
bytes_of_hex (c ∷ d ∷ desc) = byte_of_digits c d ∷ bytes_of_hex desc

-- The fields that are filled from a line, but for the data of the descriptor. A number with a sign may
-- be too large for its field and is cut off.
abbrev pub fill : Info → Request → Request
fill i req = record req {
  vendor = i.vendor % 2 ^ 16;
  product = i.product % 2 ^ 16;
  version = i.version % 2 ^ 16;
  subclass = i.subclass % 2 ^ 8;
  country = i.country % 2 ^ 8;
  parser = i.parser % 2 ^ 16;
  flags = i.flags;
  name = take 127 i.rest;
  rd_size = length i.desc / 2;
}

-- The two error codes of the calls, negated.
pub record Errors : Type 0 where
  pub minus_enomem : ℤ
  pub minus_eio : ℤ

module _ (tf : TextFiles) (create_name : List ℕ → List ℕ) (errors : Errors) where
  -- `src` and `dst` are the addresses as text. `has_str` and `has_desc` tell whether the two
  -- buffers could be allocated.
  unfoldable pub store_device_info :
      List ℕ → List ℕ → Bool → Bool → Request → tf.Files → Option (ℤ × tf.Files)
  store_device_info src dst has_str has_desc req files =
      if has_str
      then (if has_desc
          then (do
            desc ← hex_bytes req.rd_size req.rd_data
            some (
                tf.textfile_put (create_name src) dst
                  (take (info_size req - 2) (info_text req desc))
                  (tf.create_file (create_name src) files)))
          else some (errors.minus_enomem, files))
      else some (errors.minus_enomem, files)

  -- `has_desc` and `has_data` tell whether the buffers could be allocated.
  unfoldable pub get_stored_device_info :
      List ℕ → List ℕ → Bool → Bool → Request → tf.Files → Option (ℤ × Request)
  get_stored_device_info src dst has_desc has_data req files =
      if has_desc
      then elim (tf.textfile_get (create_name src) dst files) [
        | none ↦ some (errors.minus_eio, req)
        | some str ↦ (do
          i ← scan_info str
          some (
              if has_data
              then (pos 0, record (fill i req) { rd_data = bytes_of_hex i.desc })
              else (errors.minus_enomem, record (fill i req) { rd_data = [] })))
      ]
      else some (errors.minus_enomem, req)
