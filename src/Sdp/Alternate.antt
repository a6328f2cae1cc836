-- ===== src/Sdp/Alternate.antt =====
-- `get_alternate_device_info` of jni/sdp.c: the RFCOMM channel of a headset or of a serial port.
pub mod Laws
use bt_ota_bluez_api.Common.{
  ℕ, ◌%◌, ◌^◌, Bool, true, false, Option, none, some, List, [], ◌∷◌, ltb, if◌then◌else◌,
}
use bt_ota_bluez_api.Common.Int.{ℤ, pos, negsuc, pos_part, is_negative}
use bt_ota_bluez_api.Sdp.Service.{
  Uuid, headset_svclass_id, serial_port_svclass_id, rfcomm_port, Protocol, ServiceRecord,
}

-- What is written through the pointers; `none` is a variable that is not written.
pub record Outputs : Type 0 where
  pub uuid : Option Uuid
  pub channel : Option ℕ
  pub name : List ℕ

module _ (proto_port : List Protocol → Uuid → ℕ)
    (sdp_get_service_name : ServiceRecord → List ℕ → List ℕ) (minus_eio : ℤ) where
  -- The loop over the found records: the name of each is asked for, up to the first with a port. A
  -- port is kept in 8 bits, as the library has it.
  unfoldable pub walk : Bool → List ServiceRecord → Outputs → ℤ × Outputs
  walk has_channel [] out = (minus_eio, out)
  walk has_channel (r ∷ rsp) out =
      let named = record out { name = sdp_get_service_name r out.name } in
      let rest = walk has_channel rsp named in
      let ch = rfcomm_port proto_port r.access_protos % 2 ^ 8 in
      if ltb 0 ch
      then (pos 0, record named { channel = if has_channel then some ch else out.channel })
      else rest

  -- With the answer that is used, and what it is taken for.
  abbrev pub walk_as : Uuid → List ServiceRecord → Bool → Bool → List ℕ → ℤ × Outputs
  walk_as u rsp has_uuid has_channel name =
      walk has_channel rsp
        (record { uuid = if has_uuid then some u else none; channel = none; name = name })

  -- `request` is what a search returns, and the records that it found.
  unfoldable pub get_alternate_device_info :
      Bool → (Uuid → ℤ × List ServiceRecord) → Bool → Bool → List ℕ → ℤ × Outputs
  get_alternate_device_info false request has_uuid has_channel name =
      (negsuc 0, record { uuid = none; channel = none; name = name })
  get_alternate_device_info true request has_uuid has_channel name =
      let headset = request headset_svclass_id in
      let serial = request serial_port_svclass_id in
      if ltb 0 (pos_part headset.0)
      then walk_as headset_svclass_id headset.1 has_uuid has_channel name
      else if is_negative serial.0
      then (serial.0, record { uuid = none; channel = none; name = name })
      else walk_as serial_port_svclass_id serial.1 has_uuid has_channel name
