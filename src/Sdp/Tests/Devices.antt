-- ===== src/Sdp/Tests/Devices.antt =====
-- The theorem on the quirk.
use bt_ota_bluez_api.Common.{ℕ, ◌<◌, ◌≤◌, ◌≡◌, none, some, List, [], ◌∷◌, arith, length, get_or}
use bt_ota_bluez_api.Sdp.Quirk.{epox_endian_quirk}
use bt_ota_bluez_api.Sdp.Quirk.Bytes.{fixed_byte}
use bt_ota_bluez_api.Sdp.Quirk.Reference.{starts, old, epox_endian_quirk_lem}

-- The pattern and one byte more.
abbrev pub descriptor : List ℕ
descriptor =
    0x05 ∷ 0x07 ∷ 0x19 ∷ 0x00 ∷ 0x2a ∷ 0x00 ∷ 0xff ∷ 0x15 ∷ 0x00 ∷ 0x26 ∷ 0x00 ∷ 0xff ∷ 0xc0 ∷ []

epox_endian_quirk_example :
    (13 < 12 → epox_endian_quirk descriptor ≡ none)
    × (12 ≤ 13
        → (out : List ℕ) × (epox_endian_quirk descriptor ≡ some out)
          × (length out ≡ 13)
          × ((k : ℕ) → get_or out k 0 ≡ fixed_byte (starts descriptor) (old descriptor) 1 k))
epox_endian_quirk_example = epox_endian_quirk_lem descriptor (omega arith)
