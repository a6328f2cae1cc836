-- ===== src/Sdp/Tests.antt =====
-- The theorems on the stored devices at concrete data. The text files are a list
-- of entries, the last one first.
mod Devices
mod Asked
mod Services
use bt_ota_bluez_api.Common.{
  ℕ, zero, suc, ◌+◌, ◌-◌, ◌<◌, ◌≤◌, ◌≡◌, refl, sym, ap, ◌∙◌, Bool, true, false, ◌&&◌, Option, none,
  some, List, [], ◌∷◌, arith, ◌==◌, if◌then◌else◌, length, get_or,
}
use bt_ota_bluez_api.Common.Int.{ℤ, pos, negsuc}
use bt_ota_bluez_api.Common.Hex.{fixed_hex}
use bt_ota_bluez_api.Common.Scan.{skip_space, scan_hex, scan_word}
use bt_ota_bluez_api.Hid.Request.{Request}
use bt_ota_bluez_api.Sdp.Stored.{
  bytes_of_hex, scan_info, IsLine, TextFiles, Errors, hex_bytes, info_text, store_device_info,
  get_stored_device_info,
}
use bt_ota_bluez_api.Sdp.Stored.Text.{IsValid}
use bt_ota_bluez_api.Sdp.Stored.RoundTrip.{get_stored_device_info-store_device_info}
use bt_ota_bluez_api.Sdp.Stored.Empty.{misread, get_stored_device_info-empty}
use bt_ota_bluez_api.Sdp.Quirk.{pattern, epox_endian_quirk}
use bt_ota_bluez_api.Sdp.Quirk.Bytes.{fixed_byte}
use bt_ota_bluez_api.Sdp.Quirk.Reference.{starts, old, epox_endian_quirk_lem}

unfoldable same_text : List ℕ → List ℕ → Bool
same_text [] [] = true
same_text [] (d ∷ t) = false
same_text (c ∷ s) [] = false
same_text (c ∷ s) (d ∷ t) = let rest = same_text s t in (c == d) && rest

same_text_refl : (s : List ℕ) → same_text s s ≡ true
unfolding same_text
same_text_refl [] = refl
same_text_refl (c ∷ s) = let rest = same_text_refl s in ground arith

-- An entry is a file, a key and the value.
abbrev Entry : Type 0
Entry = List ℕ × (List ℕ × List ℕ)

unfoldable look_up : List ℕ → List ℕ → List Entry → Option (List ℕ)
look_up file key [] = none
look_up file key ((f, (k, value)) ∷ entries) =
    let rest = look_up file key entries in
    if same_text file f && same_text key k then some value else rest

look_up_first :
    (file key value : List ℕ) (entries : List Entry)
    → look_up file key ((file, (key, value)) ∷ entries) ≡ some value
unfolding look_up
look_up_first file key value entries = rw (same_text_refl file, same_text_refl key) refl

abbrev entries : TextFiles
entries = record {
  Files = List Entry;
  create_file = λ file files. files;
  textfile_put = λ file key value files. (pos 0, (file, (key, value)) ∷ files);
  textfile_get = look_up;
  get-put = λ file key value files h e. look_up_first file key value files;
}

abbrev errors : Errors
errors = record { minus_enomem = negsuc 11; minus_eio = negsuc 4 }

-- The name of a file is the address.
abbrev create_name : List ℕ → List ℕ
create_name src = src

abbrev keyboard : Request
keyboard = record {
  parser = 0x0100;
  rd_size = 3;
  rd_data = 0x05 ∷ 0x01 ∷ 0xc0 ∷ [];
  country = 33;
  subclass = 0x40;
  vendor = 0x046d;
  product = 0xb305;
  version = 1;
  flags = 0xdeadbeef;
  name = b'M' ∷ b'x' ∷ [];
}

keyboard-IsValid : IsValid keyboard
keyboard-IsValid = record {
  words = (omega arith, omega arith, omega arith, omega arith);
  chars = (omega arith, omega arith);
  long = omega arith;
  described = (refl, (omega arith, (omega arith, (omega arith, tt))));
}

abbrev blank : Request
blank = record {
  parser = 0;
  rd_size = 0;
  rd_data = [];
  country = 0;
  subclass = 0;
  vendor = 0;
  product = 0;
  version = 0;
  flags = 0;
  name = [];
}

-- A device without a descriptor, whose name starts with a number.
abbrev bare : Request
bare = record keyboard { rd_size = 0; rd_data = []; name = b'7' ∷ b' ' ∷ b'x' ∷ [] }

bare-IsValid : IsValid bare
bare-IsValid = record {
  words = (omega arith, omega arith, omega arith, omega arith);
  chars = (omega arith, omega arith);
  long = omega arith;
  described = (refl, tt);
}

abbrev here : List ℕ
here = b'0' ∷ []

abbrev there : List ℕ
there = b'1' ∷ []

-- What is in the files when a device was stored.
abbrev files_after : Request → Option (ℤ × List Entry) → List Entry
files_after req none = []
files_after req (some (err, files)) = files

abbrev with_keyboard : List Entry
unfolding store_device_info hex_bytes info_text
with_keyboard =
    files_after keyboard
      (store_device_info entries create_name errors here there true true keyboard [])

stores_keyboard :
    store_device_info entries create_name errors here there true true keyboard []
    ≡ some (pos 0, with_keyboard)
unfolding store_device_info hex_bytes info_text
stores_keyboard = refl

get_stored_device_info-store_device_info_example :
    get_stored_device_info entries create_name errors here there true true blank with_keyboard
    ≡ some (pos 0, keyboard)
unfolding skip_space
get_stored_device_info-store_device_info_example =
    get_stored_device_info-store_device_info entries create_name errors here there keyboard blank []
      with_keyboard keyboard-IsValid (omega arith) (omega arith) (refl, (refl, tt)) (omega arith)
      refl stores_keyboard

abbrev with_bare : List Entry
unfolding store_device_info hex_bytes info_text
with_bare =
    files_after bare (store_device_info entries create_name errors here there true true bare [])

stores_bare :
    store_device_info entries create_name errors here there true true bare []
    ≡ some (pos 0, with_bare)
unfolding store_device_info hex_bytes info_text
stores_bare = refl

-- The descriptor of four bytes is made of the flags, and the flags of the name's first digit.
get_stored_device_info-empty_example :
    get_stored_device_info entries create_name errors here there true true blank with_bare
    ≡ some (
      pos 0,
      record bare {
        rd_size = 4;
        rd_data = 0xde ∷ 0xad ∷ 0xbe ∷ 0xef ∷ [];
        flags = 7;
        name = b'x' ∷ [];
      },
    )
unfolding scan_hex bytes_of_hex fixed_hex
get_stored_device_info-empty_example =
    get_stored_device_info-empty entries create_name errors here there bare blank [] with_bare
      bare-IsValid refl (refl, (refl, (refl, tt))) stores_bare
