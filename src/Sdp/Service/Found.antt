-- ===== src/Sdp/Service/Found.antt =====
-- A service that was registered is found.
use mathlib.Core.Path.{subst}
use mathlib.Core.List.{Memᴰ}
use mathlib.Core.List.Memᴰ
use bt_ota_bluez_api.Common.{
  ℕ, ◌≡◌, ◌≢◌, ◌⊎◌, refl, ap, Bool, true, false, Option, none, some, List, [], ◌∷◌, arith,
}
use bt_ota_bluez_api.Common.Int.{ℤ, pos, negsuc, is_negative}
use bt_ota_bluez_api.Sdp.Service.{
  Uuid, Protocol, rfcomm_port, nap_svclass_id, gn_svclass_id, panu_svclass_id, ServiceRecord,
  Statics, Server, find_port,
}
use bt_ota_bluez_api.Sdp.Dun.{found, dun_sdp_search}
use bt_ota_bluez_api.Sdp.Bnep.{
  Role, other, bnep_svc_nap, bnep_svc_gn, bnep_svc_panu, bnep_record, bnep_sdp_search,
  bnep_sdp_register, bnep_sdp_register_on,
}

-- The server's records when a client has registered the record in its variable.
abbrev pub with_record : Statics → List ServiceRecord → List ServiceRecord
with_record s registered = elim s.service_record [ none ↦ registered | some r ↦ r ∷ registered ]

failed_ne_ok : {s : Statics} (s' : Statics) → ◌≢◌ {A = ℤ × Statics} (negsuc 0, s) (pos 0, s')
failed_ne_ok {s} s' h =
    let e : true ≡ false = ap (λ (p : ℤ × Statics). is_negative p.0) h in absurd (ground arith)

-- The search stops at a record that has a port, if one is there.
abbrev Stops : (List Protocol → Uuid → ℕ) → List ServiceRecord → Type 0
Stops proto_port rsp =
    (ch : ℕ) × (q : ServiceRecord) × (find_port proto_port rsp ≡ some ch)
    × Memᴰ q rsp
    × (rfcomm_port proto_port q.access_protos ≡ ch)

-- A channel that is the given one, or that of a registered record.
abbrev pub IsChannel : Server → ℕ → List ServiceRecord → ℕ → Type 0
IsChannel server channel registered ch =
    (ch ≡ channel)
    ⊎ ((r : ServiceRecord) × Memᴰ r registered
        × (rfcomm_port server.proto_port r.access_protos ≡ ch))

abbrev DunFound : Server → List ServiceRecord → ℕ → ℕ → ℕ → List ServiceRecord → Type 0
DunFound server all type was channel registered =
    (ch : ℕ) × (dun_sdp_search server.proto_port true (λ u. some (server.request all u)) type was
      ≡ (pos 1, ch))
    × IsChannel server channel registered ch

-- What `bnep_sdp_search` makes of a list with a member.
answered :
    (rsp : List ServiceRecord) (r : ServiceRecord)
    → Memᴰ r rsp
    → (elim (some rsp) as (λ (_ : Option (List ServiceRecord)). ℤ) [
      | none ↦ pos 0
      | some [] ↦ pos 0
      | some (r ∷ rsp) ↦ pos 1
    ])
      ≡ pos 1
answered [] r here = absurd (Memᴰ.not-nil here)
answered (p ∷ rsp) r here = refl

bnep_found :
    (server : Server) (role : Role) (registered : List ServiceRecord)
    → role ≢ other
    → bnep_sdp_search true (λ u. some (server.request (bnep_record role ∷ registered) u)) role
      ≡ some (pos 1)
unfolding bnep_sdp_search
bnep_found server bnep_svc_nap registered known =
    let (r, found, _) =
      server.request_finds (bnep_record bnep_svc_nap) (bnep_record bnep_svc_nap ∷ registered)
        nap_svclass_id (Memᴰ.head refl) (Memᴰ.head refl) in
    ap some (answered _ r found)
bnep_found server bnep_svc_gn registered known =
    let (r, found, _) =
      server.request_finds (bnep_record bnep_svc_gn) (bnep_record bnep_svc_gn ∷ registered)
        gn_svclass_id (Memᴰ.head refl) (Memᴰ.head refl) in
    ap some (answered _ r found)
bnep_found server bnep_svc_panu registered known =
    let (r, found, _) =
      server.request_finds (bnep_record bnep_svc_panu) (bnep_record bnep_svc_panu ∷ registered)
        panu_svclass_id (Memᴰ.head refl) (Memᴰ.head refl) in
    ap some (answered _ r found)
bnep_found server other registered known = absurd (known refl)

-- A search for the role that was registered with success finds a service.
pub bnep_sdp_search-bnep_sdp_register :
    (server : Server) (n : ℕ) (role : Role) (allocated refused : Bool) (s s' : Statics)
    (registered : List ServiceRecord)
    → role ≢ other
    → bnep_sdp_register (some n) allocated refused role s ≡ (pos 0, s')
    → bnep_sdp_search true (λ u. some (server.request (with_record s' registered) u)) role
      ≡ some (pos 1)
unfolding bnep_sdp_register bnep_sdp_register_on
bnep_sdp_search-bnep_sdp_register server n role false refused s s' registered known h =
    absurd (failed_ne_ok s' h)
bnep_sdp_search-bnep_sdp_register server n role true true s s' registered known h =
    absurd (failed_ne_ok s' h)
bnep_sdp_search-bnep_sdp_register server n role true false s s' registered known h =
    subst
      (λ (t : Statics).
        bnep_sdp_search true (λ u. some (server.request (with_record t registered) u)) role
        ≡ some (pos 1))
      (ap (λ (r : ℤ × Statics). r.1) h) (bnep_found server role registered known)
