-- ===== src/Hid/NewDevice/Again.antt =====
-- A device that SDP told of, and its next connection.
use bt_ota_bluez_api.Common.{
  ℕ, ◌≤◌, ◌<◌, ◌≡◌, refl, sym, ap, ◌∙◌, Bool, true, false, none, some, List, length, arith,
}
use bt_ota_bluez_api.Common.Int.{pos}
use bt_ota_bluez_api.Common.Scan.{skip_space}
use bt_ota_bluez_api.Hid.Request.{Request, blank_request}
use bt_ota_bluez_api.Hid.Device.{Options, Effect, added, is_zero, create_device}
use bt_ota_bluez_api.Hid.NewDevice.{Outside, calls_of, ask, look_up, create_new_device}
use bt_ota_bluez_api.Sdp.Stored.{IsLine, TextFiles, Errors, get_stored_device_info}
use bt_ota_bluez_api.Sdp.Stored.Text.{IsValid}
use bt_ota_bluez_api.Hid.NewDevice.Plain.{with_subclass, create_device_known, create_device_unknown}
use bt_ota_bluez_api.Sdp.DeviceInfo.{SdpLibrary, own_address, get_sdp_device_info}
use bt_ota_bluez_api.Sdp.DeviceInfo.Loaded.{Writes, get_stored_device_info-get_sdp_device_info}

blank_request-IsValid : IsValid blank_request
blank_request-IsValid = record {
  words = (omega arith, omega arith, omega arith, omega arith);
  chars = (omega arith, omega arith);
  long = omega arith;
  described = (refl, tt);
}

module _ (lib : SdpLibrary) (tf : TextFiles) (create_name : List ℕ → List ℕ) (errors : Errors)
    (is_any : List ℕ → Bool) (src dst : List ℕ) where
  -- The kernel gets the request, and the files are these afterwards.
  abbrev pub Adds : Options → Outside lib → Request → tf.Files → tf.Files → Type 0
  Adds o w req files files' =
      (effects : List Effect) × (create_new_device lib tf create_name errors is_any o w (some src)
          (some dst) files
        ≡ some (w.ioctl_res, (effects, files')))
      × (added effects ≡ some (with_subclass o.subclass req))

  not_stored :
      (req : Request) (files : tf.Files)
      → tf.textfile_get (create_name src) dst files ≡ none
      → get_stored_device_info tf create_name errors src dst true true req files
        ≡ some (errors.minus_eio, req)
  unfolding get_stored_device_info
  not_stored req files unknown = rw unknown refl

  asked :
      (o : Options) (w : Outside lib) (info : Request) (files files' : tf.Files)
      → o.nocheck ≡ true
      → o.nosdp ≡ false
      → is_zero errors.minus_eio ≡ false
      → get_sdp_device_info lib tf create_name errors is_any src dst w.connected w.search w.sockname
          true true true blank_request files
        ≡ some (pos 0, (info, files'))
      → ask lib tf create_name errors is_any o w src dst (errors.minus_eio, blank_request) files
        ≡ some (pos 0, (info, files'))
  unfolding ask
  asked o w info files files' unchecked asks eio told = rw (eio, unchecked, asks) told

  Adds-unknown :
      (o : Options) (w : Outside lib) (info : Request) (files files' : tf.Files)
      → o.nocheck ≡ true
      → o.nosdp ≡ false
      → o.encrypt ≡ false
      → o.bootonly ≡ false
      → is_zero errors.minus_eio ≡ false
      → tf.textfile_get (create_name src) dst files ≡ none
      → get_sdp_device_info lib tf create_name errors is_any src dst w.connected w.search w.sockname
          true true true blank_request files
        ≡ some (pos 0, (info, files'))
      → Adds o w info files files'
  unfolding create_new_device look_up
  Adds-unknown o w info files files' unchecked asks plain full eio unknown told =
      let c = calls_of lib w (errors.minus_eio, blank_request) (pos 0, info) in
      let (res, added_info) =
        create_device_unknown o c info refl refl eio unchecked asks plain full refl in
      (
        (create_device o c).1,
        rw
            (
              not_stored blank_request files unknown,
              asked o w info files files' unchecked asks eio told,
            )
            (ap (λ r. some (r, ((create_device o c).1, files'))) res),
        added_info,
      )

  Adds-known :
      (o : Options) (w : Outside lib) (info : Request) (files : tf.Files)
      → o.encrypt ≡ false
      → o.bootonly ≡ false
      → get_stored_device_info tf create_name errors src dst true true blank_request files
        ≡ some (pos 0, info)
      → Adds o w info files files
  unfolding create_new_device look_up ask
  Adds-known o w info files plain full known =
      let c = calls_of lib w (pos 0, info) (pos 0, info) in
      let (res, added_info) = create_device_known o c info refl refl plain full refl in
      (
        (create_device o c).1,
        rw known (ap (λ r. some (r, ((create_device o c).1, files))) res),
        added_info,
      )

  -- What a device says of itself over SDP is known at the next connection. A device that is not
  -- stored, need not be known and answers SDP with success is handed to the kernel as SDP described
  -- it; the next time it is handed over as the same, also when only known devices are accepted and SDP
  -- no longer answers. Each time the caller's subclass replaces the device's, if there is one, and
  -- neither encryption nor boot mode is asked for. No line fails to be written; the SDP session has
  -- the local address of the channel; the device has a descriptor of 1 to 2047 bytes and a name that
  -- is a line and does not start with whitespace.
  pub create_new_device_again :
      (o o' : Options) (w w' : Outside lib) (info : Request) (files files' : tf.Files)
      → Writes tf
      → is_zero errors.minus_eio ≡ false
      → is_any src ≡ false
      → own_address src w.sockname ≡ src
      → tf.textfile_get (create_name src) dst files ≡ none
      → get_sdp_device_info lib tf create_name errors is_any src dst w.connected w.search w.sockname
          true true true blank_request files
        ≡ some (pos 0, (info, files'))
      → 0 < length info.rd_data
      → length info.rd_data ≤ 2047
      → IsLine info.name
      → skip_space info.name ≡ info.name
      → (o.nocheck ≡ true) × (o.nosdp ≡ false) × (o.encrypt ≡ false) × (o.bootonly ≡ false)
      → (o'.encrypt ≡ false) × (o'.bootonly ≡ false)
      → Adds o w info files files' × Adds o' w' info files' files'
  create_new_device_again o o' w w' info files files' writes eio known same unknown told some_bytes
        few line front (unchecked, asks, plain, full) (plain', full') =
      let stored =
        get_stored_device_info-get_sdp_device_info lib tf create_name errors is_any src dst w.search
          w.sockname w.connected blank_request info blank_request files files' writes
          (ap is_any same ∙ known) blank_request-IsValid (omega arith) told some_bytes few line
          front in
      (
        Adds-unknown o w info files files' unchecked asks plain full eio unknown told,
        Adds-known o' w' info files' plain' full' (
            ap
              (λ a.
                get_stored_device_info tf create_name errors a dst true true blank_request files')
              (sym same)
            ∙ stored),
      )
