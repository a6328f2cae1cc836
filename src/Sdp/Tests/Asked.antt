-- ===== src/Sdp/Tests/Asked.antt =====
-- The theorems on `get_sdp_device_info` with a library whose attributes are numbers: each attribute
-- of the one record is its own id.
mod Connected
use bt_ota_bluez_api.Common.{
  ℕ, ◌%◌, ◌^◌, ◌≡◌, refl, Bool, true, false, Option, none, some, List, [], ◌∷◌, ◌++◌, arith, Bytes,
}
use bt_ota_bluez_api.Common.Int.{ℤ, pos}
use bt_ota_bluez_api.Common.Scan.{skip_space}
use bt_ota_bluez_api.Hid.Request.{Request}
use bt_ota_bluez_api.Sdp.Stored.{hex_bytes, info_text, store_device_info, get_stored_device_info}
use bt_ota_bluez_api.Sdp.Stored.Text.{IsValid}
use bt_ota_bluez_api.Sdp.Quirk.{matches, quirk_loop, epox_endian_quirk}
use bt_ota_bluez_api.Sdp.DeviceInfo.{
  SdpLibrary, Service, same_prefix, device_name, fill_hid, fill_descriptor, copy_descriptor, store,
  get_sdp_device_info,
}
use bt_ota_bluez_api.Sdp.DeviceInfo.Names.{device_name_lem}
use bt_ota_bluez_api.Sdp.DeviceInfo.Loaded.{get_stored_device_info-get_sdp_device_info}
use bt_ota_bluez_api.Sdp.Tests.Devices.{descriptor}
use bt_ota_bluez_api.Sdp.Tests.{Entry, entries, errors, create_name, blank, here, there}

descriptor-Bytes : Bytes descriptor
descriptor-Bytes = (
  omega arith,
  (
    omega arith,
    (
      omega arith,
      (
        omega arith,
        (
          omega arith,
          (
            omega arith,
            (
              omega arith,
              (
                omega arith,
                (omega arith, (omega arith, (omega arith, (omega arith, (omega arith, tt))))),
              ),
            ),
          ),
        ),
      ),
    ),
  ),
)

abbrev library : SdpLibrary
library = record {
  Record = Unit {0};
  Attribute = ℕ;
  sdp_data_get = λ rec id. some id;
  uint16 = λ d. d % 2 ^ 16;
  uint8 = λ d. d % 2 ^ 8;
  str = λ d. b'M' ∷ b'x' ∷ [];
  memory = λ d. descriptor;
  unit_size = λ d. 13;
  dataseq = λ d. some d;
  next = λ d. some d;
  uint16_bound = λ d. omega arith;
  uint8_bound = λ d. omega arith;
  memory-Bytes = λ d. descriptor-Bytes;
}

-- Both searches find the record.
abbrev search : Service → Bool × Option (Unit {0})
search s = (false, some tt)

abbrev known : List ℕ → Bool
known a = false

blank-IsValid : IsValid blank
blank-IsValid = record {
  words = (omega arith, omega arith, omega arith, omega arith);
  chars = (omega arith, omega arith);
  long = omega arith;
  described = (refl, tt);
}

abbrev asked : Option (ℤ × (Request × List Entry))
unfolding get_sdp_device_info fill_hid device_name fill_descriptor copy_descriptor epox_endian_quirk
    quirk_loop matches store store_device_info hex_bytes info_text
asked =
    get_sdp_device_info library entries create_name errors known here there true search none true
      true true blank []

abbrev request_of : Option (ℤ × (Request × List Entry)) → Request
request_of none = blank
request_of (some (err, (req, files))) = req

abbrev files_of : Option (ℤ × (Request × List Entry)) → List Entry
files_of none = []
files_of (some (err, (req, files))) = files

answers : asked ≡ some (pos 0, (request_of asked, files_of asked))
unfolding asked
answers = refl

get_stored_device_info-get_sdp_device_info_example :
    get_stored_device_info entries create_name errors here there true true blank (files_of asked)
    ≡ some (pos 0, request_of asked)
unfolding asked skip_space
get_stored_device_info-get_sdp_device_info_example =
    get_stored_device_info-get_sdp_device_info library entries create_name errors known here there
      search none true blank (request_of asked) blank [] (files_of asked)
      (λ file key value files. refl) refl blank-IsValid (omega arith) answers (omega arith)
      (omega arith) (refl, (refl, tt)) refl

abbrev acme : List ℕ
acme = b'A' ∷ b'c' ∷ b'm' ∷ b'e' ∷ []

device_name_example :
    device_name none (some (b'M' ∷ b'x' ∷ [])) (some acme) []
    ≡ some (acme ++ (b' ' ∷ b'M' ∷ b'x' ∷ []))
unfolding same_prefix
device_name_example = device_name_lem (b'M' ∷ b'x' ∷ []) acme
