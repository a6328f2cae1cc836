-- ===== src/Ota/Update/Bounds/Steps.antt =====
-- Every step of the update keeps the bounds.
use mathlib.Core.Path.{subst}
use mathlib.Core.Option.{some-injective}
use bt_ota_bluez_api.Common.{
  ℕ, ◌+◌, ◌≤◌, ◌<◌, ◌≡◌, refl, sym, ◌∙◌, ap, ◌⊎◌, inl, inr, Bool, some, arith, ltb, CharSign,
  Bool-cases,
}
use bt_ota_bluez_api.Common.Int.{ℤ, is_negative}
use bt_ota_bluez_api.Hid.Sockets.{Sockets, quit_serv, quit_thread}
use bt_ota_bluez_api.Ota.Protocol.{
  Stage, stage_next_cmd, stage_err_retry, stage_complete, ota_wait_time,
}
use bt_ota_bluez_api.Ota.Update.State.{
  Pc, send_next_cmd, retry_cmd, write_cmd, wait_response, ota_fail, ota_success, returned, System,
}
use bt_ota_bluez_api.Ota.Update.Steps.{after_poll, next_cmd, retry, poll, leave, dispatch}
use bt_ota_bluez_api.Ota.Update.Written.{written, write-eq-some}
use bt_ota_bluez_api.Ota.Update.Next.{begin_cmd-IsNext}
use bt_ota_bluez_api.Ota.Update.Order.{next_cmd-eq-some}
use bt_ota_bluez_api.Ota.Update.Bounds.Command.{begin_cmd-Kept}
use bt_ota_bluez_api.Ota.Update.Bounds.{SendsAt, WaitsAt, channels_at, ListensAt, IsBounded}

module _ (from : Sockets) (sign : CharSign) where
  begun-IsBounded :
      (s s' : System)
      → s.updater.pc ≡ send_next_cmd
      → IsBounded from s
      → next_cmd sign s ≡ some s'
      → IsBounded from s'
  begun-IsBounded s s' e h k =
      let ((u', g'), b, same) = next_cmd-eq-some (λ _. 0) sign s s' k in
      let w : s.updater.wait_count ≤ ota_wait_time =
        subst (λ pc. WaitsAt pc s.updater.wait_count) e h.waits in
      let next = begin_cmd-IsNext sign s.updater s.globals u' g' b in
      let (progress, place, waits) =
        begin_cmd-Kept sign s.updater s.globals u' g' h.progress h.place b in
      subst (IsBounded from) (sym same) (record {
        sends = rw next.at_retry (omega (arith, next.fresh));
        waits = rw next.at_retry (omega (arith, waits, w));
        progress = progress;
        place = place;
        listens = rw next.at_retry tt;
        channels = rw next.at_retry (h.channels ∙ ap (channels_at from) e);
      })

  retry-IsBounded :
      (s : System) → s.updater.pc ≡ retry_cmd → IsBounded from s → IsBounded from (retry s)
  unfolding retry
  retry-IsBounded s e h =
      let n : s.updater.send_count ≤ 3 = subst (λ pc. SendsAt pc s.updater.send_count) e h.sends in
      elim (Bool-cases (ltb 3 (s.updater.send_count + 1))) [
        | inl full ↦ record {
          sends = rw full (omega arith);
          waits = rw full (omega arith);
          progress = h.progress;
          place = h.place;
          listens = rw full tt;
          channels = rw full (h.channels ∙ ap (channels_at from) e);
        }
        | inr left ↦ record {
          sends = rw left (omega arith, ground arith);
          waits = rw left (omega arith);
          progress = h.progress;
          place = h.place;
          listens = rw left tt;
          channels = rw left (h.channels ∙ ap (channels_at from) e);
        }
      ]

  written-IsBounded :
      (res : ℤ) (s : System)
      → s.updater.pc ≡ write_cmd
      → IsBounded from s
      → IsBounded from (written res s)
  written-IsBounded res s e h =
      let n : (1 ≤ s.updater.send_count) × (s.updater.send_count ≤ 3) =
        subst (λ pc. SendsAt pc s.updater.send_count) e h.sends in
      let w : s.updater.wait_count < ota_wait_time =
        subst (λ pc. WaitsAt pc s.updater.wait_count) e h.waits in
      elim (Bool-cases (is_negative res)) [
        | inl bad ↦ record {
          sends = rw bad (omega arith);
          waits = rw bad (omega arith);
          progress = h.progress;
          place = h.place;
          listens = rw bad tt;
          channels = rw bad (h.channels ∙ ap (channels_at from) e);
        }
        | inr good ↦ record {
          sends = rw good n;
          waits = rw good w;
          progress = h.progress;
          place = h.place;
          listens = rw good tt;
          channels = rw good (h.channels ∙ ap (channels_at from) e);
        }
      ]

  -- A round of the waiting loop. It is left before the sends are used up.
  after_poll-Sends : (stage : Stage) (n : ℕ) → (1 ≤ n) × (n ≤ 3) → SendsAt (after_poll stage) n
  after_poll-Sends stage_next_cmd n h = h.1
  after_poll-Sends stage_err_retry n h = h.1
  after_poll-Sends stage_complete n h = h
  after_poll-Sends _ n h = h

  after_poll-Waits : (stage : Stage) (n : ℕ) → n < ota_wait_time → WaitsAt (after_poll stage) n
  after_poll-Waits stage_next_cmd n h = omega arith
  after_poll-Waits stage_err_retry n h = omega arith
  after_poll-Waits stage_complete n h = omega arith
  after_poll-Waits _ n h = h

  after_poll-Listens : (stage : Stage) (listens : Bool) → ListensAt (after_poll stage) listens
  after_poll-Listens stage_next_cmd listens = tt
  after_poll-Listens stage_err_retry listens = tt
  after_poll-Listens stage_complete listens = tt
  after_poll-Listens _ listens = tt

  after_poll-channels : (stage : Stage) → channels_at from (after_poll stage) ≡ from
  after_poll-channels stage_next_cmd = refl
  after_poll-channels stage_err_retry = refl
  after_poll-channels stage_complete = refl
  after_poll-channels _ = refl

  poll-IsBounded :
      (s : System) → s.updater.pc ≡ wait_response → IsBounded from s → IsBounded from (poll s)
  unfolding poll
  poll-IsBounded s e h =
      let n : (1 ≤ s.updater.send_count) × (s.updater.send_count ≤ 3) =
        subst (λ pc. SendsAt pc s.updater.send_count) e h.sends in
      let w : s.updater.wait_count < ota_wait_time =
        subst (λ pc. WaitsAt pc s.updater.wait_count) e h.waits in
      let same = h.channels ∙ ap (channels_at from) e in
      elim (Bool-cases (ltb (s.updater.wait_count + 1) ota_wait_time)) [
        | inl early ↦ record {
          sends = rw early (after_poll-Sends s.globals.ota_stage s.updater.send_count n);
          waits =
              rw early
                (after_poll-Waits s.globals.ota_stage (s.updater.wait_count + 1) (ground arith));
          progress = h.progress;
          place = h.place;
          listens = rw early (after_poll-Listens s.globals.ota_stage s.globals.flag_read);
          channels = rw early (same ∙ sym (after_poll-channels s.globals.ota_stage));
        }
        | inr late ↦ record {
          sends = rw late n.1;
          waits = rw late (omega arith);
          progress = h.progress;
          place = h.place;
          listens = rw late tt;
          channels = rw late same;
        }
      ]

  leave-IsBounded :
      (s : System)
      → (s.updater.pc ≡ ota_fail) ⊎ (s.updater.pc ≡ ota_success)
      → IsBounded from s
      → IsBounded from (leave s)
  unfolding leave
  leave-IsBounded s e h = record {
    sends = elim e [
      | inl f ↦ subst (λ pc. SendsAt pc s.updater.send_count) f h.sends
      | inr f ↦ let n = subst (λ pc. SendsAt pc s.updater.send_count) f h.sends in omega arith
    ];
    waits = elim e [
      | inl f ↦ subst (λ pc. WaitsAt pc s.updater.wait_count) f h.waits
      | inr f ↦ subst (λ pc. WaitsAt pc s.updater.wait_count) f h.waits
    ];
    progress = h.progress;
    place = h.place;
    listens = refl;
    channels =
        ap (λ (c : Sockets). (quit_serv (quit_thread c)).0)
          (elim e [
            | inl f ↦ h.channels ∙ ap (channels_at from) f
            | inr f ↦ h.channels ∙ ap (channels_at from) f
          ]);
  }

  pub dispatch-IsBounded :
      (pc : Pc) (res : ℤ) (s s' : System)
      → s.updater.pc ≡ pc
      → IsBounded from s
      → dispatch pc sign res s ≡ some s'
      → IsBounded from s'
  dispatch-IsBounded send_next_cmd res s s' e h k = begun-IsBounded s s' e h k
  dispatch-IsBounded retry_cmd res s s' e h k =
      subst (IsBounded from) (some-injective (retry s) s' k) (retry-IsBounded s e h)
  dispatch-IsBounded write_cmd res s s' e h k =
      subst (IsBounded from) (sym (write-eq-some sign res s s' k)) (written-IsBounded res s e h)
  dispatch-IsBounded wait_response res s s' e h k =
      subst (IsBounded from) (some-injective (poll s) s' k) (poll-IsBounded s e h)
  dispatch-IsBounded ota_fail res s s' e h k =
      subst (IsBounded from) (some-injective (leave s) s' k) (leave-IsBounded s (inl e) h)
  dispatch-IsBounded ota_success res s s' e h k =
      subst (IsBounded from) (some-injective (leave s) s' k) (leave-IsBounded s (inr e) h)
  dispatch-IsBounded returned res s s' e h k = subst (IsBounded from) (some-injective s s' k) h
