-- ===== src/Sdp/Alternate/Laws.antt =====
-- The headset is never taken.
use bt_ota_bluez_api.Common.{
  ℕ, ◌%◌, ◌^◌, ◌≡◌, refl, ap, inl, inr, Bool, true, false, Option, none, some, List, [], ◌∷◌, ltb,
  ge→ltb, arith, if◌then◌else◌, Bool-cases,
}
use bt_ota_bluez_api.Common.Int.{ℤ, pos_part, is_negative}
use bt_ota_bluez_api.Sdp.Service.{
  Uuid, headset_svclass_id, serial_port_svclass_id, rfcomm_port, Protocol, ServiceRecord,
}
use bt_ota_bluez_api.Sdp.Alternate.{Outputs, walk, walk_as, get_alternate_device_info}

module _ (proto_port : List Protocol → Uuid → ℕ)
    (sdp_get_service_name : ServiceRecord → List ℕ → List ℕ) (minus_eio : ℤ) where
  walk-uuid :
      (has_channel : Bool) (rsp : List ServiceRecord) (out : Outputs)
      → (walk proto_port sdp_get_service_name minus_eio has_channel rsp out).1.uuid ≡ out.uuid
  unfolding walk
  walk-uuid has_channel [] out = refl
  walk-uuid has_channel (r ∷ rsp) out =
      let rest =
        walk-uuid has_channel rsp (record out { name = sdp_get_service_name r out.name }) in
      elim (Bool-cases (ltb 0 (rfcomm_port proto_port r.access_protos % 2 ^ 8))) [
        | inl e ↦ rw e refl
        | inr e ↦ rw e rest
      ]

  -- After the second search.
  abbrev by_serial : ℤ × List ServiceRecord → Bool → Bool → List ℕ → ℤ × Outputs
  by_serial serial has_uuid has_channel name =
      if is_negative serial.0
      then (serial.0, record { uuid = none; channel = none; name = name })
      else walk_as proto_port sdp_get_service_name minus_eio serial_port_svclass_id serial.1
          has_uuid has_channel name

  -- What is written to `*uuid`: the serial port, unless the second search fails or there is no `uuid`.
  abbrev pub serial_if : ℤ → Bool → Option Uuid
  serial_if err has_uuid =
      if is_negative err then none else if has_uuid then some serial_port_svclass_id else none

  serial_uuid :
      (serial : ℤ × List ServiceRecord) (has_uuid has_channel : Bool) (name : List ℕ)
      → (by_serial serial has_uuid has_channel name).1.uuid ≡ serial_if serial.0 has_uuid
  serial_uuid serial has_uuid has_channel name = elim (Bool-cases (is_negative serial.0)) [
    | inl e ↦ rw e refl
    | inr e ↦ rw e (walk-uuid has_channel serial.1 _)
  ]

  -- When the library returns 0 for a search without an error, as it is documented to, and less for
  -- one with an error, then the answer to the search for a headset is never used: nothing changes with
  -- that answer, and the serial port is what is written to `*uuid`, exactly when the search for it has
  -- no error and the caller has given a `uuid`.
  pub get_alternate_device_info-serial :
      (request : Uuid → ℤ × List ServiceRecord) (serial : ℤ × List ServiceRecord)
      (has_uuid has_channel : Bool) (name : List ℕ)
      → ((u : Uuid) → pos_part (request u).0 ≡ 0)
      → request serial_port_svclass_id ≡ serial
      → let result =
          get_alternate_device_info proto_port sdp_get_service_name minus_eio true request has_uuid
            has_channel name in
        (result
          ≡ get_alternate_device_info proto_port sdp_get_service_name minus_eio true
              (λ u. serial)
              has_uuid
              has_channel
              name)
        × (result.1.uuid ≡ (
            if is_negative serial.0
            then none
            else if has_uuid
            then some serial_port_svclass_id
            else none))
  unfolding get_alternate_device_info
  get_alternate_device_info-serial request serial has_uuid has_channel name contract e =
      let no_headset : ltb 0 (pos_part (request headset_svclass_id).0) ≡ false =
        ge→ltb 0 (pos_part (request headset_svclass_id).0)
          (omega (arith, contract headset_svclass_id)) in
      let no_serial : ltb 0 (pos_part serial.0) ≡ false = ge→ltb 0 (pos_part serial.0) (
        omega (
          arith,
          contract serial_port_svclass_id,
          ap (λ (r : ℤ × List ServiceRecord). pos_part r.0) e,
        )) in
      rw (no_headset, e, no_serial) (refl, serial_uuid serial has_uuid has_channel name)
