-- ===== src/Ota/Update/Hearing.antt =====
-- A round of the reading thread, as a step of the sender.
use mathlib.Core.Path.{subst, subst₂, ap₂}
use bt_ota_bluez_api.Common.{ℕ, ◌-◌, ◌≡◌, refl, sym, ap, inl, inr, some, List, CharSign}
use bt_ota_bluez_api.Ota.Protocol.{Stage}
use bt_ota_bluez_api.Ota.Reader.{ReadResult, read_bytes}
use bt_ota_bluez_api.Ota.Update.State.{
  Pc, send_next_cmd, retry_cmd, write_cmd, wait_response, ota_fail, ota_success, returned, Updater,
  System,
}
use bt_ota_bluez_api.Ota.Update.Steps.{reader_turn, reader_step}
use bt_ota_bluez_api.Ota.Update.Order.{reader_step-frame}
use bt_ota_bluez_api.Ota.Update.Sender.{
  armed, waiting, Says, Step, hear_armed, hear_waiting, unheard, answer_of, sender_at, sender_of,
}
use bt_ota_bluez_api.Ota.Update.Number.{NumberedAt, IsNumbered}
use bt_ota_bluez_api.Ota.Update.Said.{reader_step-Says}

module _ (fw : ℕ → ℕ) (sign : CharSign) where
  -- A turn of the reading thread, at a place that is known.
  abbrev Heard : Pc → ReadResult → System → System → Type 0
  Heard pc r s s' =
      Step sign fw (reader_turn r)
        (sender_at pc s.globals.total_cmd_num s.updater.send_count s.updater.wait_count
          s.globals.ota_stage)
        s.wire
        (sender_at pc s.globals.total_cmd_num s.updater.send_count s.updater.wait_count
          s'.globals.ota_stage)
        s.wire

  -- Where the stage does not matter, or stands for the same answer.
  kept-Heard :
      (pc : Pc) (r : ReadResult) (s s' : System)
      → sender_at pc s.globals.total_cmd_num s.updater.send_count s.updater.wait_count
          s.globals.ota_stage
        ≡ sender_at pc s.globals.total_cmd_num s.updater.send_count s.updater.wait_count
            s'.globals.ota_stage
      → Heard pc r s s'
  kept-Heard pc r s s' e =
      subst
        (λ b.
          Step sign fw (reader_turn r)
            (sender_at pc s.globals.total_cmd_num s.updater.send_count s.updater.wait_count
              s.globals.ota_stage)
            s.wire b s.wire)
        e unheard

  said-Heard :
      (pc : Pc) (bytes : List ℕ) (s s' : System)
      → NumberedAt sign fw pc s.globals.total_cmd_num s.globals.current_data_seq
      → Says sign s.globals.current_data_seq bytes (answer_of s'.globals.ota_stage)
      → Heard pc (read_bytes bytes) s s'
  said-Heard write_cmd bytes s s' own says =
      hear_armed (subst (λ n. Says sign n bytes (answer_of s'.globals.ota_stage)) own says)
  said-Heard wait_response bytes s s' own says =
      hear_waiting (subst (λ n. Says sign n bytes (answer_of s'.globals.ota_stage)) own says)
  said-Heard send_next_cmd bytes s s' own says = unheard
  said-Heard retry_cmd bytes s s' own says = unheard
  said-Heard ota_fail bytes s s' own says = unheard
  said-Heard ota_success bytes s s' own says = unheard
  said-Heard returned bytes s s' own says = unheard

  same_answer :
      (pc : Pc) (total sends waits : ℕ) (stage stage' : Stage)
      → answer_of stage ≡ answer_of stage'
      → sender_at pc total sends waits stage ≡ sender_at pc total sends waits stage'
  same_answer write_cmd total sends waits stage stage' e =
      ap (λ a. armed (total - 1) (sends - 1) a waits) e
  same_answer wait_response total sends waits stage stage' e =
      ap (λ a. waiting (total - 1) sends a waits) e
  same_answer send_next_cmd total sends waits stage stage' e = refl
  same_answer retry_cmd total sends waits stage stage' e = refl
  same_answer ota_fail total sends waits stage stage' e = refl
  same_answer ota_success total sends waits stage stage' e = refl
  same_answer returned total sends waits stage stage' e = refl

  -- A round of the reading thread is a step of the sender.
  pub reader_step-Step :
      (r : ReadResult) (s s' : System)
      → IsNumbered sign fw s
      → reader_step sign r s ≡ some s'
      → Step sign fw (reader_turn r) (sender_of s) s.wire (sender_of s') s'.wire
  reader_step-Step r s s' own k =
      let (eu, ew, et) = reader_step-frame sign r s {s' = s'} k in
      let pc = s.updater.pc in
      let heard : Heard pc r s s' = elim (reader_step-Says sign r s s' k) [
        | inl same ↦ kept-Heard pc r s s' (
            same_answer pc s.globals.total_cmd_num s.updater.send_count s.updater.wait_count
              s.globals.ota_stage s'.globals.ota_stage (sym same))
        | inr (bytes, it, says) ↦
            subst (λ r. Heard pc r s s') (sym it) (said-Heard pc bytes s s' own says)
      ] in
      subst₂ (λ b w. Step sign fw (reader_turn r) (sender_of s) s.wire b w)
        (ap₂ (λ (u : Updater) t. sender_at u.pc t u.send_count u.wait_count s'.globals.ota_stage)
          (sym eu) (sym et))
        (sym ew) heard
