-- ===== src/Sdp/Bnep.antt =====
-- The network service of jni/sdp.c: `bnep_sdp_register` and `bnep_sdp_search`.
use bt_ota_bluez_api.Common.{
  ℕ, Bool, true, false, Option, none, some, List, [], ◌∷◌, ◌++◌, ◌>>=◌, if◌then◌else◌,
}
use bt_ota_bluez_api.Common.Int.{ℤ, pos, negsuc}
use bt_ota_bluez_api.Sdp.Service.{
  Uuid, public_browse_group, l2cap_uuid, bnep_uuid, nap_svclass_id, gn_svclass_id, panu_svclass_id,
  nap_profile_id, gn_profile_id, panu_profile_id, sdp_uint16, sdp_uint32, sdp_seq16, security_desc,
  net_access_type, max_net_accessrate, ServiceRecord, new_record, add_lang_attr, sdp_connect,
  sdp_close, sdp_device_record_register, sdp_record_free, Statics,
}

-- The roles of BlueZ's bnep.h, and any other number.
pub data Role : Type 0 where
  bnep_svc_nap : Role
  bnep_svc_gn : Role
  bnep_svc_panu : Role
  other : Role

-- The record before its role.
abbrev pub common_record : ServiceRecord
common_record =
    let r = add_lang_attr (record new_record {
      browse_groups = public_browse_group ∷ [];
      access_protos =
          (l2cap_uuid, sdp_uint16 15 ∷ [])
          ∷ (bnep_uuid, sdp_uint16 0x0100 ∷ sdp_seq16 (0x0800 ∷ 0x0806 ∷ []) ∷ [])
          ∷ [];
    }) in
    record r { attributes = (security_desc, sdp_uint16 0) ∷ [] }

abbrev pub bnep_record : Role → ServiceRecord
bnep_record bnep_svc_nap = record common_record {
  service_classes = nap_svclass_id ∷ [];
  profile_descs = (nap_profile_id, 0x0100) ∷ [];
  info = some (record {
    name = "Network Access Point";
    provider = some "BlueZ PAN";
    description = some "BlueZ PAN Service";
  });
  attributes =
      common_record.attributes
      ++ ((net_access_type, sdp_uint16 0xfffe) ∷ (max_net_accessrate, sdp_uint32 0) ∷ []);
}
bnep_record bnep_svc_gn = record common_record {
  service_classes = gn_svclass_id ∷ [];
  profile_descs = (gn_profile_id, 0x0100) ∷ [];
  info = some (record {
    name = "Group Network Service";
    provider = some "BlueZ PAN";
    description = some "BlueZ PAN Service";
  });
}
bnep_record bnep_svc_panu = record common_record {
  service_classes = panu_svclass_id ∷ [];
  profile_descs = (panu_profile_id, 0x0100) ∷ [];
  info = some (record {
    name = "PAN User";
    provider = some "BlueZ PAN";
    description = some "BlueZ PAN Service";
  });
}
bnep_record other = common_record

-- With a session: `allocated` and `refused` are whether there was memory for a record, and whether
-- the server did not take it.
unfoldable pub bnep_sdp_register_on : ℕ → Bool → Bool → Role → Statics → ℤ × Statics
bnep_sdp_register_on n false refused role s = (
  negsuc 0,
  record s {
    session = some n;
    service_record = none;
    calls = sdp_close (some n) ∷ sdp_connect n ∷ s.calls;
  },
)
bnep_sdp_register_on n true true role s =
    let r = bnep_record role in
    (
      negsuc 0,
      record s {
        session = some n;
        service_record = none;
        calls =
            sdp_close (some n)
            ∷ sdp_record_free r
            ∷ sdp_device_record_register n r
            ∷ sdp_connect n
            ∷ s.calls;
      },
    )
bnep_sdp_register_on n true false role s =
    let r = bnep_record role in
    (
      pos 0,
      record s {
        session = some n;
        service_record = some r;
        calls = sdp_device_record_register n r ∷ sdp_connect n ∷ s.calls;
      },
    )

unfoldable pub bnep_sdp_register : Option ℕ → Bool → Bool → Role → Statics → ℤ × Statics
bnep_sdp_register none allocated refused role s = (negsuc 0, record s { session = none })
bnep_sdp_register (some n) allocated refused role s =
    bnep_sdp_register_on n allocated refused role s

-- The class that is searched for; it is not set for another number than the three.
abbrev pub searched_class : Role → Option Uuid
searched_class bnep_svc_panu = some panu_svclass_id
searched_class bnep_svc_nap = some nap_svclass_id
searched_class bnep_svc_gn = some gn_svclass_id
searched_class other = none

-- Whether anything is found. `rsp` was set to null, so an error is one without an answer.
unfoldable pub bnep_sdp_search : Bool → (Uuid → Option (List ServiceRecord)) → Role → Option ℤ
bnep_sdp_search connected request role = do
  svclass ← searched_class role
  some (
      if connected
      then elim (request svclass) [ none ↦ pos 0 | some [] ↦ pos 0 | some (r ∷ rsp) ↦ pos 1 ]
      else pos 0)
