-- ===== src/Sdp/DeviceInfo.antt =====
-- `get_sdp_device_info` of jni/sdp.c: what a device says of itself, asked with the SDP library.
pub mod Names
pub mod Filled
pub mod Loaded
use bt_ota_bluez_api.Common.{
  ℕ, zero, suc, ◌+◌, ◌-◌, ◌%◌, ◌^◌, ◌<◌, Bool, true, false, ◌&&◌, Option, none, some, List, [], ◌∷◌,
  ◌++◌, ltb, leb, ◌==◌, if◌then◌else◌, length, take, drop, ◌>>◌, ◌>>=◌, check, Bytes,
}
use bt_ota_bluez_api.Common.Int.{ℤ, pos, negsuc}
use bt_ota_bluez_api.Hid.Request.{Request}
use bt_ota_bluez_api.Sdp.Stored.{TextFiles, Errors, store_device_info}
use bt_ota_bluez_api.Sdp.Quirk.{epox_endian_quirk}

-- The records and attributes of the SDP library (sdp.h, sdp_lib.h): a field is what the code reads
-- of a value. `str` is the text up to its NUL, `memory` the bytes that may be read behind the
-- pointer. The widths are those of the members of the union.
pub record SdpLibrary : Type 1 where
  pub Record : Type 0
  pub Attribute : Type 0
  pub sdp_data_get : Record → ℕ → Option Attribute
  pub uint16 : Attribute → ℕ
  pub uint8 : Attribute → ℕ
  pub str : Attribute → List ℕ
  pub memory : Attribute → List ℕ
  pub unit_size : Attribute → ℕ
  pub dataseq : Attribute → Option Attribute
  pub next : Attribute → Option Attribute
  pub uint16_bound : (d : Attribute) → uint16 d < 2 ^ 16
  pub uint8_bound : (d : Attribute) → uint8 d < 2 ^ 8
  pub memory-Bytes : (d : Attribute) → Bytes (memory d)

-- The two services that are asked for.
pub data Service : Type 0 where
  pnp_info : Service
  hid : Service

-- `sizeof(req->name)`. A name is what stands before the first NUL, and the array is zero behind it.
abbrev pub name_size : ℕ
name_size = 128

-- `!strncmp(s, t, n)`.
unfoldable pub same_prefix : ℕ → List ℕ → List ℕ → Bool
same_prefix zero s t = true
same_prefix (suc n) [] [] = true
same_prefix (suc n) [] (d ∷ t) = false
same_prefix (suc n) (c ∷ s) [] = false
same_prefix (suc n) (c ∷ s) (d ∷ t) = let rest = same_prefix n s t in (c == d) && rest

-- `strcat` to a name: no room for the closing NUL is `none`.
abbrev pub cat : List ℕ → List ℕ → Option (List ℕ)
cat name s = do check (ltb (length name + length s) name_size); some (name ++ s)

-- The name from the attributes 0x0100, 0x0101 and 0x0102.
unfoldable pub device_name :
    Option (List ℕ) → Option (List ℕ) → Option (List ℕ) → List ℕ → Option (List ℕ)
device_name (some service) description provider name = some (take (name_size - 1) service)
device_name none none provider name = some name
device_name none (some description) none name = some (take (name_size - 1) description)
device_name none (some description) (some provider) name = do
  start ←
      (if same_prefix 5 description provider
        then some name
        else cat (take (name_size - 1) provider) (b' ' ∷ []))
  cat start (take (name_size - length start) description)

-- The address that the connection is from: `sockname` is what `getsockname` tells, if it does.
abbrev pub own_address : List ℕ → Option (List ℕ) → List ℕ
own_address src none = src
own_address src (some own) = own

module _ (lib : SdpLibrary) where
  -- A field of an attribute, or a default if there is no such attribute.
  abbrev pub uint16_or : Option lib.Attribute → ℕ → ℕ
  uint16_or none default = default
  uint16_or (some d) default = lib.uint16 d

  abbrev pub uint8_or : Option lib.Attribute → ℕ → ℕ
  uint8_or none default = default
  uint8_or (some d) default = lib.uint8 d

  abbrev pub str_of : Option lib.Attribute → Option (List ℕ)
  str_of none = none
  str_of (some d) = some (lib.str d)

  abbrev pub fill_pnp : Option lib.Record → Request → Request
  fill_pnp none req = req
  fill_pnp (some rec) req = record req {
    vendor = uint16_or (lib.sdp_data_get rec 0x0201) 0x0000;
    product = uint16_or (lib.sdp_data_get rec 0x0202) 0x0000;
    version = uint16_or (lib.sdp_data_get rec 0x0203) 0x0000;
  }

  -- `malloc` and `memcpy` of the descriptor, and the quirk. The size is cut off to the 16 bits of its
  -- field before the quirk gets it.
  unfoldable pub copy_descriptor : Bool → lib.Attribute → Request → Option Request
  copy_descriptor false d req = some (record req { rd_data = [] })
  copy_descriptor true d req = do
    check (leb (lib.unit_size d) (length (lib.memory d)))
    let data_copied = take (lib.unit_size d) (lib.memory d)
    let size = lib.unit_size d % 2 ^ 16
    quirked ← epox_endian_quirk (take size data_copied)
    some (record req { rd_size = size; rd_data = quirked ++ drop size data_copied })

  -- The descriptor is the second value of the first sequence in the attribute's sequence.
  unfoldable pub fill_descriptor : Bool → Option lib.Attribute → Request → Option Request
  fill_descriptor has_data none req = some req
  fill_descriptor has_data (some d) req = do
    list ← lib.dataseq d
    kind ← lib.dataseq list
    text ← lib.next kind
    copy_descriptor has_data text req

  unfoldable pub fill_hid : Bool → lib.Record → Request → Option Request
  fill_hid has_data rec req = do
    name ←
        device_name (str_of (lib.sdp_data_get rec 0x0100)) (str_of (lib.sdp_data_get rec 0x0101))
          (str_of (lib.sdp_data_get rec 0x0102)) req.name
    let descriptor = lib.sdp_data_get rec 0x0206
    fill_descriptor has_data descriptor (record req {
      name = name;
      parser = uint16_or (lib.sdp_data_get rec 0x0201) 0x0100;
      subclass = uint8_or (lib.sdp_data_get rec 0x0202) 0;
      country = uint8_or (lib.sdp_data_get rec 0x0203) 0;
    })

  module _ (tf : TextFiles) (create_name : List ℕ → List ℕ) (errors : Errors) where
    -- `own` is the local address.
    unfoldable pub store :
        (List ℕ → Bool) → List ℕ → List ℕ → Bool → Bool → Request → tf.Files → Option tf.Files
    store is_any own dst has_str has_desc req files = if is_any own then some files else (do
      (err, files') ← store_device_info tf create_name errors own dst has_str has_desc req files
      some files')

    -- `search` is what the two requests give, a failure and the first record of the response;
    -- and `is_any` is `!bacmp(_, BDADDR_ANY)`.
    unfoldable pub get_sdp_device_info :
        (List ℕ → Bool)
        → List ℕ
        → List ℕ
        → Bool
        → (Service → Bool × Option lib.Record)
        → Option (List ℕ)
        → Bool
        → Bool
        → Bool
        → Request
        → tf.Files
        → Option (ℤ × (Request × tf.Files))
    get_sdp_device_info is_any src dst connected search sockname has_data has_str has_desc req
          files =
        if connected
        then (if (search hid).0 then some (negsuc 0, (req, files)) else elim (search hid).1 [
          | none ↦ some (negsuc 0, (req, files))
          | some rec ↦ (do
            req' ← fill_hid has_data rec (fill_pnp (search pnp_info).1 req)
            files' ← store is_any (own_address src sockname) dst has_str has_desc req' files
            some (pos 0, (req', files')))
        ])
        else some (negsuc 0, (req, files))
