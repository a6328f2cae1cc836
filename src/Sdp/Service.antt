-- ===== src/Sdp/Service.antt =====
-- The service records of jni/sdp.c and the calls of the SDP library that the code makes with them.
pub mod Found
pub mod Sessions
use Prim.Native.String.{String}
use mathlib.Core.List.{Memᴰ}
use bt_ota_bluez_api.Common.{
  ℕ, zero, suc, ◌+◌, ◌*◌, ◌^◌, ◌≡◌, ◌≢◌, ltb, Bool, true, false, Option, none, some, List, [], ◌∷◌,
  ◌==◌, if◌then◌else◌,
}

-- The services, protocols and profiles that the code names. The numbers of 16 bits are those of
-- BlueZ's sdp.h.
pub data Uuid : Type 0 where
  public_browse_group : Uuid
  l2cap_uuid : Uuid
  bnep_uuid : Uuid
  rfcomm_uuid : Uuid
  nap_svclass_id : Uuid
  gn_svclass_id : Uuid
  panu_svclass_id : Uuid
  serial_port_svclass_id : Uuid
  dialup_net_svclass_id : Uuid
  lan_access_svclass_id : Uuid
  headset_svclass_id : Uuid
  nap_profile_id : Uuid
  gn_profile_id : Uuid
  panu_profile_id : Uuid
  lan_access_profile_id : Uuid
  dialup_net_profile_id : Uuid
  uuid128 : List ℕ → Uuid

-- A value in a record.
pub data Value : Type 0 where
  sdp_uint8 : ℕ → Value
  sdp_uint16 : ℕ → Value
  sdp_uint32 : ℕ → Value
  sdp_seq16 : List ℕ → Value

-- The attributes that are added one by one.
pub data AttrId : Type 0 where
  security_desc : AttrId
  net_access_type : AttrId
  max_net_accessrate : AttrId

-- A protocol with its parameters, such as a port.
abbrev pub Protocol : Type 0
Protocol = Uuid × List Value

-- `sdp_lang_attr_t`, with the primary base as its offset.
pub record LangAttr : Type 0 where
  pub code_iso639 : ℕ
  pub encoding : ℕ

-- What `sdp_set_info_attr` gets: the name, the provider and the description.
pub record InfoAttr : Type 0 where
  pub name : String
  pub provider : Option String
  pub description : Option String

pub record ServiceRecord : Type 0 where
  pub browse_groups : List Uuid
  pub access_protos : List Protocol
  pub lang : Option LangAttr
  pub service_classes : List Uuid
  pub profile_descs : List (Uuid × ℕ)
  pub info : Option InfoAttr
  pub attributes : List (AttrId × Value)

-- The record that `sdp_record_alloc` gives.
abbrev pub new_record : ServiceRecord
new_record = record {
  browse_groups = [];
  access_protos = [];
  lang = none;
  service_classes = [];
  profile_descs = [];
  info = none;
  attributes = [];
}

abbrev pub add_lang_attr : ServiceRecord → ServiceRecord
add_lang_attr r = record r {
  lang = some (record { code_iso639 = 0x65 * 2 ^ 8 + 0x6e; encoding = 106 });
}

-- The calls that open and close sessions with the SDP server, and that hand it a record or take it
-- back. A session is a number.
pub data Call : Type 0 where
  sdp_connect : ℕ → Call
  sdp_close : Option ℕ → Call
  sdp_device_record_register : ℕ → ServiceRecord → Call
  sdp_record_unregister : Option ℕ → ServiceRecord → Call
  sdp_record_free : ServiceRecord → Call

-- The two static variables, and the calls so far, the last one first.
pub record Statics : Type 0 where
  pub session : Option ℕ
  pub service_record : Option ServiceRecord
  pub calls : List Call

-- `bnep_sdp_unregister` and `dun_sdp_unregister`, which are the same. Neither variable is reset.
unfoldable pub unregister : Statics → Statics
unregister s = record s {
  calls = sdp_close s.session ∷ elim s.service_record [
    | none ↦ s.calls
    | some r ↦ sdp_record_unregister s.session r ∷ s.calls
  ];
}

-- How often a session was opened, and how often it was closed.
unfoldable pub times_opened : ℕ → List Call → ℕ
times_opened n [] = 0
times_opened n (sdp_connect m ∷ calls) =
    let rest = times_opened n calls in if m == n then suc rest else rest
times_opened n (_ ∷ calls) = times_opened n calls

unfoldable pub times_closed : ℕ → List Call → ℕ
times_closed n [] = 0
times_closed n (sdp_close (some m) ∷ calls) =
    let rest = times_closed n calls in if m == n then suc rest else rest
times_closed n (_ ∷ calls) = times_closed n calls

-- What the server does for a client, as far as the code relies on it: a record with a class is found
-- when that class is searched for, what is found was registered, and the port of a protocol is the
-- number that stands with it. A search gives the protocols of the records as they were registered; in
-- which order the records come is left open. `request` is the answer to a search.
pub record Server : Type 1 where
  pub request : List ServiceRecord → Uuid → List ServiceRecord
  pub proto_port : List Protocol → Uuid → ℕ
  pub request_finds :
      (r : ServiceRecord) (registered : List ServiceRecord) (u : Uuid)
      → Memᴰ r registered
      → Memᴰ u r.service_classes
      → (r' : ServiceRecord) × Memᴰ r' (request registered u) × (r'.access_protos ≡ r.access_protos)
  pub request_found :
      (r' : ServiceRecord) (registered : List ServiceRecord) (u : Uuid)
      → Memᴰ r' (request registered u)
      → (r : ServiceRecord) × Memᴰ r registered × (r'.access_protos ≡ r.access_protos)
  pub proto_port-second :
      (p q : Uuid) (port : ℕ)
      → p ≢ q
      → proto_port ((p, []) ∷ (q, sdp_uint8 port ∷ []) ∷ []) q ≡ port

-- `sdp_get_access_protos` and `sdp_get_proto_port`: a record without protocols has no RFCOMM port.
abbrev pub rfcomm_port : (List Protocol → Uuid → ℕ) → List Protocol → ℕ
rfcomm_port proto_port [] = 0
rfcomm_port proto_port (p ∷ ps) = proto_port (p ∷ ps) rfcomm_uuid

-- The loop over the found records: the first RFCOMM port that is not 0.
unfoldable pub find_port : (List Protocol → Uuid → ℕ) → List ServiceRecord → Option ℕ
find_port proto_port [] = none
find_port proto_port (r ∷ rsp) =
    let rest = find_port proto_port rsp in
    let ch = rfcomm_port proto_port r.access_protos in if ltb 0 ch then some ch else rest
