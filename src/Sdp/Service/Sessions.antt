-- ===== src/Sdp/Service/Sessions.antt =====
-- The sessions with the SDP server that a registration and its end open and close.
use bt_ota_bluez_api.Common.{
  ℕ, suc, ◌≡◌, refl, ap, ◌∙◌, inl, inr, true, some, ◌==◌, ==_iff, Option-cases,
}
use bt_ota_bluez_api.Sdp.Service.{Statics, unregister, times_closed}

itself : (n : ℕ) → (n == n) ≡ true
itself n = (==_iff n n).1 refl

times_closed-unregister :
    (n : ℕ) (s : Statics)
    → s.session ≡ some n
    → times_closed n (unregister s).calls ≡ suc (times_closed n s.calls)
unfolding unregister times_closed
times_closed-unregister n s h = elim (Option-cases s.service_record) [
  | inl e ↦ rw (h, e, itself n) refl
  | inr (r, e) ↦ rw (h, e, itself n) refl
]

-- The record is not forgotten when it was taken back, nor the session when it was closed: a second
-- call closes the session a second time.
pub unregister_twice :
    (n : ℕ) (s : Statics)
    → s.session ≡ some n
    → (times_closed n (unregister (unregister s)).calls ≡ suc (suc (times_closed n s.calls)))
      × ((unregister s).session ≡ some n)
      × ((unregister s).service_record ≡ s.service_record)
unfolding unregister
unregister_twice n s h =
    (times_closed-unregister n (unregister s) h ∙ ap suc (times_closed-unregister n s h), h, refl)
