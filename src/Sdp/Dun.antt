-- ===== src/Sdp/Dun.antt =====
-- The dial-up service of jni/sdp.c: `dun_sdp_register` and `dun_sdp_search`.

use bt_ota_bluez_api.Common.{
  ℕ, Bool, true, false, Option, none, some, List, [], ◌∷◌, ◌==◌, if◌then◌else◌,
}
use bt_ota_bluez_api.Common.Int.{ℤ, pos, negsuc}
use bt_ota_bluez_api.Sdp.Service.{
  Uuid, public_browse_group, l2cap_uuid, rfcomm_uuid, serial_port_svclass_id, dialup_net_svclass_id,
  lan_access_svclass_id, lan_access_profile_id, dialup_net_profile_id, uuid128, sdp_uint8, InfoAttr,
  Protocol, ServiceRecord, new_record, sdp_connect, sdp_device_record_register, sdp_record_free,
  Statics, find_port,
}

abbrev pub lanaccess : ℕ
lanaccess = 0

abbrev pub mrouter : ℕ
mrouter = 1

abbrev pub activesync : ℕ
activesync = 2

abbrev pub dialup : ℕ
dialup = 3

abbrev pub async_uuid : List ℕ
async_uuid =
    0x03 ∷ 0x50 ∷ 0x27 ∷ 0x8f ∷ 0x3d ∷ 0xca ∷ 0x4e ∷ 0x62 ∷ 0x83 ∷ 0x1d ∷ 0xa4 ∷ 0x11 ∷ 0x65 ∷ 0xff
    ∷ 0x90 ∷ 0x6c ∷ []

-- The class that is registered.
abbrev pub registered_class : ℕ → Uuid
registered_class type =
    if type == mrouter
    then serial_port_svclass_id
    else if type == activesync
    then uuid128 async_uuid
    else if type == dialup
    then dialup_net_svclass_id
    else lan_access_svclass_id

-- The class that is searched for.
abbrev pub searched_class : ℕ → Uuid
searched_class type =
    if type == mrouter
    then serial_port_svclass_id
    else if type == activesync
    then uuid128 async_uuid
    else if type == dialup
    then dialup_net_svclass_id
    else lan_access_svclass_id

abbrev pub profiles_of : ℕ → List (Uuid × ℕ)
profiles_of type =
    if type == lanaccess
    then (lan_access_profile_id, 0x0100) ∷ []
    else if type == dialup
    then (dialup_net_profile_id, 0x0100) ∷ []
    else []

abbrev pub info_of : ℕ → InfoAttr
info_of type = record {
  name =
      if type == mrouter
      then "mRouter"
      else if type == activesync
      then "ActiveSync"
      else if type == dialup
      then "Dialup Networking"
      else "LAN Access Point";
  provider = none;
  description = none;
}

-- The record that is built from a new one.
abbrev pub dun_record : ℕ → ℕ → ServiceRecord
dun_record channel type = record new_record {
  browse_groups = public_browse_group ∷ [];
  access_protos = (l2cap_uuid, []) ∷ (rfcomm_uuid, sdp_uint8 channel ∷ []) ∷ [];
  service_classes = registered_class type ∷ [];
  profile_descs = profiles_of type;
  info = some (info_of type);
}

-- With a session: `allocated` and `refused` are whether there was memory for a record, and whether
-- the server did not take it.
unfoldable pub dun_sdp_register_on : ℕ → Bool → Bool → ℕ → ℕ → Statics → ℤ × Statics
dun_sdp_register_on n false refused channel type s = (
  negsuc 0,
  record s { session = some n; service_record = none; calls = sdp_connect n ∷ s.calls },
)
dun_sdp_register_on n true true channel type s =
    let r = dun_record channel type in
    (
      negsuc 0,
      record s {
        session = some n;
        service_record = none;
        calls = sdp_record_free r ∷ sdp_device_record_register n r ∷ sdp_connect n ∷ s.calls;
      },
    )
dun_sdp_register_on n true false channel type s =
    let r = dun_record channel type in
    (
      pos 0,
      record s {
        session = some n;
        service_record = some r;
        calls = sdp_device_record_register n r ∷ sdp_connect n ∷ s.calls;
      },
    )

unfoldable pub dun_sdp_register : Option ℕ → Bool → Bool → ℕ → ℕ → Statics → ℤ × Statics
dun_sdp_register none allocated refused channel type s = (negsuc 0, record s { session = none })
dun_sdp_register (some n) allocated refused channel type s =
    dun_sdp_register_on n allocated refused channel type s

-- What is returned for the port that was found, and the channel, which is left as it was without one.
abbrev pub found : ℕ → Option ℕ → ℤ × ℕ
found channel none = (pos 0, channel)
found channel (some ch) = (pos 1, ch)

-- `connected` is whether there is a session, and `request` the answer, if there was no error.
unfoldable pub dun_sdp_search :
    (List Protocol → Uuid → ℕ) → Bool → (Uuid → Option (List ServiceRecord)) → ℕ → ℕ → ℤ × ℕ
dun_sdp_search proto_port false request type channel = (negsuc 0, channel)
dun_sdp_search proto_port true request type channel = elim (request (searched_class type)) [
  | none ↦ (pos 0, channel)
  | some rsp ↦ found channel (find_port proto_port rsp)
]
