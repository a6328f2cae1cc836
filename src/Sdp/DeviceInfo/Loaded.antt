-- ===== src/Sdp/DeviceInfo/Loaded.antt =====
-- What a device says of itself is stored so that it is got back.
use mathlib.Core.Option.{none-ne-some, some-injective}
use mathlib.Core.Path.{ap₂}
use bt_ota_bluez_api.Common.{
  ℕ, ◌≤◌, ◌<◌, ◌≡◌, ◌≢◌, refl, sym, ap, ◌∙◌, inl, inr, Bool, true, false, Option, some, List, arith,
  length, Bool-cases, Option-cases,
}
use bt_ota_bluez_api.Common.Int.{ℤ, pos, negsuc, is_negative}
use bt_ota_bluez_api.Common.Scan.{skip_space}
use bt_ota_bluez_api.Hid.Request.{Request}
use bt_ota_bluez_api.Sdp.Stored.{
  IsLine, TextFiles, Errors, store_device_info, get_stored_device_info,
}
use bt_ota_bluez_api.Sdp.Stored.Text.{IsValid}
use bt_ota_bluez_api.Sdp.Stored.RoundTrip.{
  store_device_info-put, get_stored_device_info-store_device_info,
}
use bt_ota_bluez_api.Sdp.DeviceInfo.{
  SdpLibrary, Service, pnp_info, hid, own_address, fill_pnp, fill_hid, store, get_sdp_device_info,
}
use bt_ota_bluez_api.Sdp.DeviceInfo.Filled.{
  IsFilled-IsValid, IsValid-IsFilled, fill_pnp-IsFilled, fill_hid-IsFilled,
}

-- No line fails to be written.
abbrev pub Writes : TextFiles → Type 0
Writes tf =
    (file key value : List ℕ) (files : tf.Files) → (tf.textfile_put file key value files).0 ≡ pos 0

module _ (tf : TextFiles) (create_name : List ℕ → List ℕ) (errors : Errors) (writes : Writes tf)
    (own dst : List ℕ) where
  store_device_info-stores :
      (req : Request) (files : tf.Files)
      → IsValid req
      → (files' : tf.Files) × (store_device_info tf create_name errors own dst true true req files
          ≡ some (pos 0, files'))
  store_device_info-stores req files v =
      let put = store_device_info-put tf create_name errors own dst req v files in
      (_, put ∙ ap some (ap₂ (λ e f. (e, f)) (writes (create_name own) dst _ _) refl))

  store-stores :
      (lib : SdpLibrary) (is_any : List ℕ → Bool) (req : Request) (files files' : tf.Files)
      → IsValid req
      → is_any own ≡ false
      → store lib tf create_name errors is_any own dst true true req files ≡ some files'
      → store_device_info tf create_name errors own dst true true req files ≡ some (pos 0, files')
  unfolding store
  store-stores lib is_any req files files' v known h =
      let (files'', e) = store_device_info-stores req files v in
      e ∙ ap (λ f. some (pos 0, f)) (some-injective files'' files' (rw (known, e) at h))

-- A failure is not a success.
failed_ne_ok :
    {A : Type 0} (r r' : A) → ◌≢◌ {A = Option (ℤ × A)} (some (negsuc 0, r)) (some (pos 0, r'))
failed_ne_ok {A} r r' h =
    let e : true ≡ false =
      ap (λ (p : ℤ × A). is_negative p.0) (some-injective (negsuc 0, r) (pos 0, r') h) in
    absurd (ground arith)

module _ (lib : SdpLibrary) (tf : TextFiles) (create_name : List ℕ → List ℕ) (errors : Errors)
    (is_any : List ℕ → Bool) (src dst : List ℕ) (search : Service → Bool × Option lib.Record)
    (sockname : Option (List ℕ)) where
  -- What a success means: a record was filled in and stored.
  abbrev Answered : Request → Request → tf.Files → tf.Files → Type 0
  Answered req req' files files' =
      (rec : lib.Record) × (fill_hid lib true rec (fill_pnp lib (search pnp_info).1 req)
        ≡ some req')
      × (store lib tf create_name errors is_any (own_address src sockname) dst true true req' files
          ≡ some files')

  answered :
      (connected : Bool) (req req' : Request) (files files' : tf.Files)
      → get_sdp_device_info lib tf create_name errors is_any src dst connected search sockname true
          true true req files
        ≡ some (pos 0, (req', files'))
      → Answered req req' files files'
  unfolding get_sdp_device_info
  answered false req req' files files' h = absurd (failed_ne_ok (req, files) (req', files') h)
  answered true req req' files files' h = elim (Bool-cases (search hid).0) [
    | inl e ↦ absurd (failed_ne_ok (req, files) (req', files') (rw e at h))
    | inr e ↦ elim (Option-cases (search hid).1) [
      | inl f ↦ absurd (failed_ne_ok (req, files) (req', files') (rw (e, f) at h))
      | inr (rec, f) ↦
          elim (Option-cases (fill_hid lib true rec (fill_pnp lib (search pnp_info).1 req))) [
            | inl g ↦ absurd (none-ne-some (pos 0, (req', files')) (rw (e, f, g) at h))
            | inr (filled, g) ↦
                elim (Option-cases (
                  store lib tf create_name errors is_any (own_address src sockname) dst true true
                    filled files)) [
                      | inl k ↦ absurd (none-ne-some (pos 0, (req', files')) (rw (e, f, g, k) at h))
                      | inr (stored, k) ↦
                          let same =
                            some-injective _ (pos 0, (req', files')) (rw (e, f, g, k) at h) in
                          let same_req : filled ≡ req' =
                            ap (λ (r : ℤ × (Request × tf.Files)). r.1.0) same in
                          let same_files : stored ≡ files' =
                            ap (λ (r : ℤ × (Request × tf.Files)). r.1.1) same in
                          (
                            rec,
                            g ∙ ap some same_req,
                            ap
                                  (λ r.
                                    store lib tf create_name errors is_any
                                      (own_address src sockname) dst true true r files)
                                  (sym same_req)
                                ∙ k
                                ∙ ap some same_files,
                          )
                    ]
          ]
    ]
  ]

  -- What the device said of itself is got back, whatever the request held before: if SDP was asked
  -- and answered with success, no line fails to be written, memory was there, and the local address
  -- is known. The request that SDP filled was valid and had a name that fits; the descriptor has 1 to
  -- 2047 bytes, and the name is a line that does not start with whitespace.
  pub get_stored_device_info-get_sdp_device_info :
      (connected : Bool) (req req' old : Request) (files files' : tf.Files)
      → Writes tf
      → is_any (own_address src sockname) ≡ false
      → IsValid req
      → length req.name < 128
      → get_sdp_device_info lib tf create_name errors is_any src dst connected search sockname true
          true true req files
        ≡ some (pos 0, (req', files'))
      → 0 < length req'.rd_data
      → length req'.rd_data ≤ 2047
      → IsLine req'.name
      → skip_space req'.name ≡ req'.name
      → get_stored_device_info tf create_name errors
          (own_address src sockname)
          dst
          true
          true
          old
          files'
        ≡ some (pos 0, req')
  get_stored_device_info-get_sdp_device_info connected req req' old files files' writes known v
        named h some_bytes few line front =
      let (rec, filled, stored) = answered connected req req' files files' h in
      let f =
        fill_hid-IsFilled lib rec (fill_pnp lib (search pnp_info).1 req) req'
          (fill_pnp-IsFilled lib (search pnp_info).1 req (IsValid-IsFilled req v named)) filled in
      let size = f.sized (omega arith) in
      let valid = IsFilled-IsValid req' f (omega arith) in
      get_stored_device_info-store_device_info tf create_name errors (own_address src sockname) dst
        req' old files files' valid (omega arith) (omega arith) line (omega (arith, f.named)) front
        (store-stores tf create_name errors writes (own_address src sockname) dst lib is_any req'
          files files' valid known stored)
