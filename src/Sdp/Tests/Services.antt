-- ===== src/Sdp/Tests/Services.antt =====
-- The theorems on the service records with a small server: it gives every record for a search, and
-- the port that stands in the second protocol.
use bt_ota_bluez_api.Common.{ℕ, ◌≡◌, ◌≢◌, refl, true, false, none, some, List, [], ◌∷◌, arith}
use bt_ota_bluez_api.Common.Int.{ℤ, pos, negsuc, pos_part}
use bt_ota_bluez_api.Sdp.Service.{
  Uuid, headset_svclass_id, serial_port_svclass_id, sdp_uint8, Protocol, ServiceRecord, Statics,
  Server,
}
use bt_ota_bluez_api.Sdp.Service.Found.{with_record, bnep_sdp_search-bnep_sdp_register}
use bt_ota_bluez_api.Sdp.Dun.{mrouter, dialup, dun_record, dun_sdp_register, dun_sdp_register_on}
use bt_ota_bluez_api.Sdp.Bnep.{
  bnep_svc_gn, other, bnep_sdp_register, bnep_sdp_register_on, bnep_sdp_search,
}
use bt_ota_bluez_api.Sdp.Alternate.{get_alternate_device_info}
use bt_ota_bluez_api.Sdp.Alternate.Laws.{get_alternate_device_info-serial}

abbrev second_port : List Protocol → Uuid → ℕ
second_port (p ∷ (q, sdp_uint8 port ∷ []) ∷ []) u = port
second_port _ u = 0

abbrev server : Server
server = record {
  request = λ registered u. registered;
  proto_port = second_port;
  request_finds = λ r registered u here class. (r, here, refl);
  request_found = λ r registered u here. (r, here, refl);
  proto_port-second = λ p q port h. refl;
}

abbrev no_service : Statics
no_service = record { session = none; service_record = none; calls = [] }

abbrev with_dun : Statics
unfolding dun_sdp_register dun_sdp_register_on
with_dun = (dun_sdp_register (some 3) true false 5 dialup no_service).1

-- Another record is there, with channel 7.
abbrev others : List ServiceRecord
others = dun_record 7 mrouter ∷ []

abbrev with_bnep : Statics
unfolding bnep_sdp_register bnep_sdp_register_on
with_bnep = (bnep_sdp_register (some 4) true false bnep_svc_gn no_service).1

registers_bnep : bnep_sdp_register (some 4) true false bnep_svc_gn no_service ≡ (pos 0, with_bnep)
unfolding bnep_sdp_register bnep_sdp_register_on
registers_bnep = refl

gn_known : bnep_svc_gn ≢ other
gn_known e = absurd (ground arith)

bnep_sdp_search_example :
    bnep_sdp_search true (λ u. some (with_record with_bnep [])) bnep_svc_gn ≡ some (pos 1)
bnep_sdp_search_example =
    bnep_sdp_search-bnep_sdp_register server 4 bnep_svc_gn true false no_service with_bnep []
      gn_known registers_bnep

-- There is a headset with channel 7 and a serial port with channel 5.
abbrev serial_answer : ℤ × List ServiceRecord
serial_answer = (pos 0, dun_record 5 mrouter ∷ [])

abbrev answer : Uuid → ℤ × List ServiceRecord
answer headset_svclass_id = (pos 0, dun_record 7 mrouter ∷ [])
answer _ = serial_answer

answer_ok : (u : Uuid) → pos_part (answer u).0 ≡ 0
answer_ok headset_svclass_id = refl
answer_ok _ = refl

get_alternate_device_info_example :
    let result =
      get_alternate_device_info second_port (λ r name. name) (negsuc 4) true answer true true [] in
    (result
      ≡ get_alternate_device_info second_port
          (λ r name. name)
          (negsuc 4)
          true
          (λ u. serial_answer)
          true
          true
          [])
    × (result.1.uuid ≡ some serial_port_svclass_id)
get_alternate_device_info_example =
    get_alternate_device_info-serial second_port (λ r name. name) (negsuc 4) answer serial_answer
      true true [] answer_ok refl
