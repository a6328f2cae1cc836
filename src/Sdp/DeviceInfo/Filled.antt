-- ===== src/Sdp/DeviceInfo/Filled.antt =====
-- The request that `get_sdp_device_info` fills is valid.
use mathlib.Core.Option.{none-ne-some, some-injective}
use mathlib.Core.Path.{subst}
use bt_ota_bluez_api.Common.{
  ℕ, zero, suc, ◌%◌, ◌^◌, ◌<◌, ◌≡◌, inl, inr, true, Option, none, some, List, [], ◌∷◌, ◌++◌, arith,
  leb, length, length-append, length-take, length-take-drop, take, drop, Bytes, Bool-cases,
  Option-cases,
}
use bt_ota_bluez_api.Hid.Request.{Request}
use bt_ota_bluez_api.Sdp.Stored.Text.{IsValid}
use bt_ota_bluez_api.Sdp.Quirk.{epox_endian_quirk}
use bt_ota_bluez_api.Sdp.Quirk.Kept.{epox_endian_quirk-Kept}
use bt_ota_bluez_api.Sdp.DeviceInfo.{
  SdpLibrary, device_name, uint16_or, uint8_or, str_of, fill_pnp, copy_descriptor, fill_descriptor,
  fill_hid,
}
use bt_ota_bluez_api.Sdp.DeviceInfo.Names.{device_name-length}

take-Bytes : (n : ℕ) (bytes : List ℕ) → Bytes bytes → Bytes (take n bytes)
take-Bytes zero bytes h = tt
take-Bytes (suc n) [] h = tt
take-Bytes (suc n) (c ∷ bytes) (hc, h) = (hc, take-Bytes n bytes h)

drop-Bytes : (n : ℕ) (bytes : List ℕ) → Bytes bytes → Bytes (drop n bytes)
drop-Bytes zero bytes h = h
drop-Bytes (suc n) [] h = tt
drop-Bytes (suc n) (c ∷ bytes) (hc, h) = drop-Bytes n bytes h

append-Bytes : (xs ys : List ℕ) → Bytes xs → Bytes ys → Bytes (xs ++ ys)
append-Bytes [] ys h k = k
append-Bytes (x ∷ xs) ys (hx, h) k = (hx, append-Bytes xs ys h k)

-- A request whose size may be cut off to 16 bits.
pub record IsFilled (req : Request) : Type 0 where
  pub words :
      (req.vendor < 2 ^ 16)
      × (req.product < 2 ^ 16)
      × (req.version < 2 ^ 16)
      × (req.parser < 2 ^ 16)
  pub chars : (req.subclass < 2 ^ 8) × (req.country < 2 ^ 8)
  pub long : req.flags < 2 ^ 32
  pub bytes : Bytes req.rd_data
  pub sized : length req.rd_data < 2 ^ 16 → req.rd_size ≡ length req.rd_data
  pub named : length req.name < 128

pub IsFilled-IsValid : (req : Request) → IsFilled req → length req.rd_data < 2 ^ 16 → IsValid req
IsFilled-IsValid req f h = record {
  words = f.words;
  chars = f.chars;
  long = f.long;
  described = (f.sized h, f.bytes);
}

pub IsValid-IsFilled : (req : Request) → IsValid req → length req.name < 128 → IsFilled req
IsValid-IsFilled req v h = record {
  words = v.words;
  chars = v.chars;
  long = v.long;
  bytes = v.described.1;
  sized = λ _. v.described.0;
  named = h;
}

module _ (lib : SdpLibrary) where
  uint16_or-small :
      (d : Option lib.Attribute) (default : ℕ) → default < 2 ^ 16 → uint16_or lib d default < 2 ^ 16
  uint16_or-small none default h = h
  uint16_or-small (some d) default h = lib.uint16_bound d

  uint8_or-small :
      (d : Option lib.Attribute) (default : ℕ) → default < 2 ^ 8 → uint8_or lib d default < 2 ^ 8
  uint8_or-small none default h = h
  uint8_or-small (some d) default h = lib.uint8_bound d

  pub fill_pnp-IsFilled :
      (pnp : Option lib.Record) (req : Request) → IsFilled req → IsFilled (fill_pnp lib pnp req)
  fill_pnp-IsFilled none req f = f
  fill_pnp-IsFilled (some rec) req f = record {
    words = (
      uint16_or-small (lib.sdp_data_get rec 0x0201) 0x0000 (omega arith),
      uint16_or-small (lib.sdp_data_get rec 0x0202) 0x0000 (omega arith),
      uint16_or-small (lib.sdp_data_get rec 0x0203) 0x0000 (omega arith),
      f.words.3,
    );
    chars = f.chars;
    long = f.long;
    bytes = f.bytes;
    sized = f.sized;
    named = f.named;
  }

  copy_descriptor-IsFilled :
      (d : lib.Attribute) (req req' : Request)
      → IsFilled req
      → copy_descriptor lib true d req ≡ some req'
      → IsFilled req'
  unfolding copy_descriptor
  copy_descriptor-IsFilled d req req' f h =
      elim (Bool-cases (leb (lib.unit_size d) (length (lib.memory d)))) [
        | inr e ↦ absurd (none-ne-some req' (rw e at h))
        | inl e ↦ elim (Option-cases (epox_endian_quirk (take size copied))) [
          | inl q ↦ absurd (none-ne-some req' (rw (e, q) at h))
          | inr (quirked, q) ↦
              let (len, kept) = epox_endian_quirk-Kept (take size copied) quirked q in
              let whole = length-append quirked (drop size copied) in
              let parts = length-take-drop size copied in
              let all = length-take (lib.unit_size d) (lib.memory d) (ground arith) in
              let b = take-Bytes (lib.unit_size d) (lib.memory d) (lib.memory-Bytes d) in
              subst IsFilled (some-injective _ req' (rw (e, q) at h)) (record {
                words = f.words;
                chars = f.chars;
                long = f.long;
                bytes =
                    append-Bytes quirked (drop size copied) (kept (take-Bytes size copied b))
                      (drop-Bytes size copied b);
                sized = λ small. omega (arith, whole, parts, all, len, small);
                named = f.named;
              })
        ]
      ]
    where
      size : ℕ
      size = lib.unit_size d % 2 ^ 16

      copied : List ℕ
      copied = take (lib.unit_size d) (lib.memory d)

  fill_descriptor-IsFilled :
      (descriptor : Option lib.Attribute) (req req' : Request)
      → IsFilled req
      → fill_descriptor lib true descriptor req ≡ some req'
      → IsFilled req'
  unfolding fill_descriptor
  fill_descriptor-IsFilled none req req' f h = subst IsFilled (some-injective req req' h) f
  fill_descriptor-IsFilled (some d) req req' f h = elim (Option-cases (lib.dataseq d)) [
    | inl e₁ ↦ absurd (none-ne-some req' (rw e₁ at h))
    | inr (list, e₁) ↦ elim (Option-cases (lib.dataseq list)) [
      | inl e₂ ↦ absurd (none-ne-some req' (rw (e₁, e₂) at h))
      | inr (kind, e₂) ↦ elim (Option-cases (lib.next kind)) [
        | inl e₃ ↦ absurd (none-ne-some req' (rw (e₁, e₂, e₃) at h))
        | inr (text, e₃) ↦ copy_descriptor-IsFilled text req req' f (rw (e₁, e₂, e₃) at h)
      ]
    ]
  ]

  pub fill_hid-IsFilled :
      (rec : lib.Record) (req req' : Request)
      → IsFilled req
      → fill_hid lib true rec req ≡ some req'
      → IsFilled req'
  unfolding fill_hid
  fill_hid-IsFilled rec req req' f h = elim (Option-cases made) [
    | inl e ↦ absurd (none-ne-some req' (rw e at h))
    | inr (name, e) ↦
        fill_descriptor-IsFilled (lib.sdp_data_get rec 0x0206)
          (record req {
            name = name;
            parser = uint16_or lib (lib.sdp_data_get rec 0x0201) 0x0100;
            subclass = uint8_or lib (lib.sdp_data_get rec 0x0202) 0;
            country = uint8_or lib (lib.sdp_data_get rec 0x0203) 0;
          })
          req'
          (record {
            words = (
              f.words.0,
              f.words.1,
              f.words.2,
              uint16_or-small (lib.sdp_data_get rec 0x0201) 0x0100 (omega arith),
            );
            chars = (
              uint8_or-small (lib.sdp_data_get rec 0x0202) 0 (omega arith),
              uint8_or-small (lib.sdp_data_get rec 0x0203) 0 (omega arith),
            );
            long = f.long;
            bytes = f.bytes;
            sized = f.sized;
            named =
                device_name-length (str_of lib (lib.sdp_data_get rec 0x0100))
                  (str_of lib (lib.sdp_data_get rec 0x0101))
                  (str_of lib (lib.sdp_data_get rec 0x0102)) req.name name f.named e;
          })
          (rw e at h)
  ]
    where
      made : Option (List ℕ)
      made =
          device_name (str_of lib (lib.sdp_data_get rec 0x0100))
            (str_of lib (lib.sdp_data_get rec 0x0101)) (str_of lib (lib.sdp_data_get rec 0x0102))
            req.name
