-- ===== src/Ota/Update/Order.antt =====
-- Every turn keeps the packets in the order of the image.
use mathlib.Core.Path.{subst, subst₂, subst₃, ap₂}
use mathlib.Core.Option.{none-ne-some, some-injective}
use bt_ota_bluez_api.Common.{
  ℕ, suc, ◌+◌, ◌≡◌, refl, sym, ◌∙◌, ap, ◌⊎◌, inl, inr, some, List, ◌∷◌, arith, slice, ltb, CharSign,
  Bool-cases, Option-cases,
}
use bt_ota_bluez_api.Common.Int.{ℤ, is_negative}
use bt_ota_bluez_api.Ota.Globals.{Globals}
use bt_ota_bluez_api.Ota.Protocol.{
  Stage, stage_next_cmd, stage_err_retry, stage_complete, ota_wait_time,
}
use bt_ota_bluez_api.Ota.Reader.{ReadResult, read_round, on_read, on_response}
use bt_ota_bluez_api.Ota.Update.State.{
  Pc, send_next_cmd, retry_cmd, write_cmd, wait_response, ota_fail, ota_success, returned, Updater,
  System,
}
use bt_ota_bluez_api.Ota.Update.Command.{begin_cmd, cmd_len_at}
use bt_ota_bluez_api.Ota.Update.Steps.{
  packet, after_poll, retry, poll, leave, next_cmd, dispatch, update_step, reader_step, Turn,
  update_turn, reader_turn, turn, run,
}
use bt_ota_bluez_api.Ota.Update.Transcript.{
  IsTranscript, begun, sent, offset, framed_cmd, PlaceAt, Place, InOrder,
}
use bt_ota_bluez_api.Ota.Update.Written.{written, write-eq-some}
use bt_ota_bluez_api.Ota.Update.Keeps.{run_keeps}
use bt_ota_bluez_api.Ota.Update.Next.{begin_cmd-IsNext}

pub reader_step-frame :
    (sign : CharSign) (r : ReadResult) (s : System) {s' : System}
    → reader_step sign r s ≡ some s'
    → (s'.updater ≡ s.updater)
      × (s'.wire ≡ s.wire)
      × (s'.globals.total_cmd_num ≡ s.globals.total_cmd_num)
unfolding reader_step read_round on_read on_response
reader_step-frame sign r s h = ground arith

module _ (fw : ℕ → ℕ) (sign : CharSign) where
  retry-Place : (s : System) → Place fw retry_cmd s → Place fw (retry s).updater.pc (retry s)
  unfolding retry
  retry-Place s (n, e, t, f) = elim (Bool-cases (ltb 3 (s.updater.send_count + 1))) [
    | inl full ↦ rw full (suc n, s.updater.send_count, omega arith, t)
    | inr left ↦ rw left (s.updater.send_count, omega arith, ground arith, (n, e, t, f))
  ]

  after_poll-Place :
      (stage : Stage) (s : System) → Place fw wait_response s → Place fw (after_poll stage) (poll s)
  unfolding poll
  after_poll-Place stage_next_cmd s (pos, (n, e, t, f)) = (
    s.updater.send_count,
    subst (λ m. IsTranscript fw m s.updater.send_count s.wire) (sym e) t,
    inr pos,
  )
  after_poll-Place stage_err_retry s (pos, p) = p
  after_poll-Place stage_complete s (pos, (n, e, t, f)) =
      (suc n, s.updater.send_count, omega arith, t)
  after_poll-Place _ s p = p

  poll-Place : (s : System) → Place fw wait_response s → Place fw (poll s).updater.pc (poll s)
  poll-Place s p = elim (Bool-cases (ltb (s.updater.wait_count + 1) ota_wait_time)) [
    | inl soon ↦
        let e : (poll s).updater.pc ≡ after_poll s.globals.ota_stage = unfold poll in rw soon in
        subst (λ pc. Place fw pc (poll s)) (sym e) (after_poll-Place s.globals.ota_stage s p)
    | inr late ↦
        let e : (poll s).updater.pc ≡ retry_cmd = unfold poll in rw late in
        subst (λ pc. Place fw pc (poll s)) (sym e) (unfold poll in p.1)
  ]

  written-Place :
      (res : ℤ) (s : System)
      → Place fw write_cmd s
      → Place fw (written res s).updater.pc (written res s)
  written-Place res s (k, count, few, (n, e, t, f)) = elim (Bool-cases (is_negative res)) [
    | inl bad ↦ rw bad (suc n, k, omega arith, t)
    | inr good ↦
        let t' = subst (λ p. IsTranscript fw (suc n) (suc k) (p ∷ s.wire)) (sym f) (sent t few) in
        let t'' =
          subst (λ m. IsTranscript fw (suc n) m (packet s.updater ∷ s.wire)) (sym count) t' in
        rw good (omega arith, (n, e, t'', f))
  ]

  -- A step of the update keeps the order.
  retry-InOrder : (s : System) → s.updater.pc ≡ retry_cmd → InOrder fw s → InOrder fw (retry s)
  retry-InOrder s e h = record {
    image = unfold retry in h.image;
    ends = unfold retry in h.ends;
    place = retry-Place s (rw e at h.place);
  }

  poll-InOrder : (s : System) → s.updater.pc ≡ wait_response → InOrder fw s → InOrder fw (poll s)
  poll-InOrder s e h = record {
    image = unfold poll in h.image;
    ends = unfold poll in h.ends;
    place = poll-Place s (rw e at h.place);
  }

  written-InOrder :
      (res : ℤ) (s : System) → s.updater.pc ≡ write_cmd → InOrder fw s → InOrder fw (written res s)
  written-InOrder res s e h = record {
    image = h.image;
    ends = h.ends;
    place = written-Place res s (rw e at h.place);
  }

  -- At FLAG_OTA_FAIL, at FLAG_OTA_SUCCESS and past the `return`.
  abbrev Ended : Pc → Type 0
  Ended pc = (pc ≡ ota_fail) ⊎ (pc ≡ ota_success) ⊎ (pc ≡ returned)

  Ended-Place : (pc : Pc) (s : System) → Ended pc → Place fw pc s → Place fw returned s
  Ended-Place ota_fail s e p = p
  Ended-Place ota_success s e p = p
  Ended-Place returned s e p = p
  Ended-Place send_next_cmd s e p = absurd (ground arith)
  Ended-Place retry_cmd s e p = absurd (ground arith)
  Ended-Place write_cmd s e p = absurd (ground arith)
  Ended-Place wait_response s e p = absurd (ground arith)

  leave-InOrder : (s : System) → Ended s.updater.pc → InOrder fw s → InOrder fw (leave s)
  leave-InOrder s e h = record {
    image = unfold leave in h.image;
    ends = unfold leave in h.ends;
    place = unfold leave in Ended-Place s.updater.pc s e h.place;
  }

  -- The state when the next command has been begun.
  abbrev pub begun_with : System → Updater × Globals → System
  begun_with s r = record s { updater = r.0; globals = r.1 }

  begun-InOrder :
      (s : System) (r : Updater × Globals)
      → s.updater.pc ≡ send_next_cmd
      → begin_cmd sign s.updater s.globals ≡ some r
      → InOrder fw s
      → InOrder fw (begun_with s r)
  begun-InOrder s r e b h =
      let next = begin_cmd-IsNext sign s.updater s.globals r.0 r.1 b in
      let (k, t, sent_once) = rw e at h.place in
      let n = s.globals.total_cmd_num in
      let at_start : r.0.current_cmd_idx ≡ offset fw n = next.moved ∙ h.ends in
      let at_size : r.0.current_cmd_len ≡ cmd_len_at fw (offset fw n) =
        next.sized ∙ ap₂ cmd_len_at h.image at_start in
      let total : r.1.total_cmd_num ≡ suc n = next.counted ∙ omega arith in
      let framed : packet r.0 ≡ framed_cmd fw n =
        next.framed
        ∙ ap (λ f. 0x52 ∷ slice f r.0.current_cmd_idx r.0.current_cmd_len) h.image
        ∙ ap₂ (λ i l. 0x52 ∷ slice fw i l) at_start at_size in
      let t' = subst (λ m. IsTranscript fw (suc n) m s.wire) (sym next.fresh) (begun t sent_once) in
      record {
        image = next.image ∙ h.image;
        ends =
            subst (λ m. r.0.current_cmd_idx + r.0.current_cmd_len ≡ offset fw m) (sym total)
              (ap₂ ◌+◌ at_start at_size);
        place =
            subst (λ pc. Place fw pc (begun_with s r)) (sym next.at_retry) (n, total, t', framed);
      }

  pub next_cmd-eq-some :
      (s s' : System)
      → next_cmd sign s ≡ some s'
      → (r : Updater × Globals) × (begin_cmd sign s.updater s.globals ≡ some r)
        × (s' ≡ begun_with s r)
  unfolding next_cmd
  next_cmd-eq-some s s' h = elim (Option-cases (begin_cmd sign s.updater s.globals)) [
    | inl e ↦ absurd (none-ne-some s' (rw e at h))
    | inr (r, e) ↦ (r, e, sym (some-injective (begun_with s r) s' (rw e at h)))
  ]

  dispatch-InOrder :
      (pc : Pc) (res : ℤ) (s s' : System)
      → s.updater.pc ≡ pc
      → InOrder fw s
      → dispatch pc sign res s ≡ some s'
      → InOrder fw s'
  dispatch-InOrder send_next_cmd res s s' e h k =
      let (r, b, same) = next_cmd-eq-some s s' k in
      subst (InOrder fw) (sym same) (begun-InOrder s r e b h)
  dispatch-InOrder retry_cmd res s s' e h k =
      subst (InOrder fw) (some-injective (retry s) s' k) (retry-InOrder s e h)
  dispatch-InOrder write_cmd res s s' e h k =
      subst (InOrder fw) (sym (write-eq-some sign res s s' k)) (written-InOrder res s e h)
  dispatch-InOrder wait_response res s s' e h k =
      subst (InOrder fw) (some-injective (poll s) s' k) (poll-InOrder s e h)
  dispatch-InOrder ota_fail res s s' e h k =
      subst (InOrder fw) (some-injective (leave s) s' k) (leave-InOrder s (inl e) h)
  dispatch-InOrder ota_success res s s' e h k =
      subst (InOrder fw) (some-injective (leave s) s' k) (leave-InOrder s (inr (inl e)) h)
  dispatch-InOrder returned res s s' e h k = subst (InOrder fw) (some-injective s s' k) h

  -- The order is one of the updater, of what was sent and of the number of commands.
  pub frame-InOrder :
      (s s' : System)
      → s'.updater ≡ s.updater
      → s'.wire ≡ s.wire
      → s'.globals.total_cmd_num ≡ s.globals.total_cmd_num
      → InOrder fw s
      → InOrder fw s'
  frame-InOrder s s' eu ew et h = record {
    image = ap (λ (u : Updater). u.fw_data_buf) eu ∙ h.image;
    ends =
        subst₂ (λ (u : Updater) t. u.current_cmd_idx + u.current_cmd_len ≡ offset fw t) (sym eu)
          (sym et) h.ends;
    place = subst₃ (λ (u : Updater) w t. PlaceAt fw u.pc u t w) (sym eu) (sym ew) (sym et) h.place;
  }

  reader-InOrder :
      (r : ReadResult) (s s' : System)
      → InOrder fw s
      → reader_step sign r s ≡ some s'
      → InOrder fw s'
  reader-InOrder r s s' h k =
      let (eu, ew, et) = reader_step-frame sign r s {s' = s'} k in frame-InOrder s s' eu ew et h

  -- Every turn of either thread keeps the order.
  pub turn-InOrder :
      (t : Turn) (s s' : System) → InOrder fw s → turn sign t s ≡ some s' → InOrder fw s'
  unfolding turn
  turn-InOrder (update_turn res) s s' h k =
      dispatch-InOrder s.updater.pc res s s' refl h (unfold update_step in k)
  turn-InOrder (reader_turn r) s s' h k = reader-InOrder r s s' h k

  pub run-InOrder :
      (ts : List Turn) (s s' : System) → InOrder fw s → run sign ts s ≡ some s' → InOrder fw s'
  run-InOrder = run_keeps (InOrder fw) sign turn-InOrder
