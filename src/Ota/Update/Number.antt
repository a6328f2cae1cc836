-- ===== src/Ota/Update/Number.antt =====
-- The number that the device's response is compared with is that of the command in flight.
use mathlib.Core.Path.{subst, subst₃, ap₂}
use mathlib.Core.Option.{none-ne-some, some-injective}
use bt_ota_bluez_api.Common.{
  ℕ, suc, ◌+◌, ◌-◌, ◌≡◌, refl, sym, ◌∙◌, ap, inl, inr, some, arith, ltb, ◌==◌, if◌then◌else◌,
  CharSign, promote, Option-cases,
}
use bt_ota_bluez_api.Common.Int.{ℤ}
use bt_ota_bluez_api.Ota.Globals.{Globals}
use bt_ota_bluez_api.Ota.Reader.{ReadResult, read_round, on_read, on_response, seq_of}
use bt_ota_bluez_api.Ota.Update.State.{
  Pc, send_next_cmd, retry_cmd, write_cmd, wait_response, ota_fail, ota_success, returned, Updater,
  System,
}
use bt_ota_bluez_api.Ota.Update.Command.{cmd_len_at, begin_cmd, note_data_cmd, fill_crc}
use bt_ota_bluez_api.Ota.Update.Copy.{IsCopied}
use bt_ota_bluez_api.Ota.Update.Next.{
  copy_cmd-IsCopied_back, begin_cmd_parts, begin_cmd-IsNext, start, size, blank, cut, recount,
}
use bt_ota_bluez_api.Ota.Update.Begin.{cmd_byte}
use bt_ota_bluez_api.Ota.Update.Steps.{
  next_cmd, retry, poll, leave, dispatch, Turn, update_turn, reader_turn, turn, update_step,
  reader_step,
}
use bt_ota_bluez_api.Ota.Update.Written.{write-eq-some}
use bt_ota_bluez_api.Ota.Update.Transcript.{InOrder}
use bt_ota_bluez_api.Ota.Update.Order.{next_cmd-eq-some}
use bt_ota_bluez_api.Ota.Update.Sender.{number_of}

note_data_cmd-number :
    (sign : CharSign) (v : Updater) (g : Globals) {u' : Updater} {g' : Globals}
    → note_data_cmd sign v g ≡ some (u', g')
    → g'.current_data_seq ≡ (
        if promote sign (v.cmd_buf 5) == 0x02
        then seq_of sign (v.cmd_buf 6) (v.cmd_buf 7)
        else g.current_data_seq)
unfolding note_data_cmd
note_data_cmd-number sign v g h = ground arith

fill_crc-number :
    (sign : CharSign) (v : Updater) (g : Globals) {u' : Updater} {g' : Globals}
    → fill_crc sign v g ≡ some (u', g')
    → g'.current_data_seq ≡ g.current_data_seq
unfolding fill_crc
fill_crc-number sign v g h = ground arith

module _ (sign : CharSign) (u : Updater) (g : Globals) where
  -- The bytes behind the report type, after the copy.
  copied_byte :
      (p : (ℕ → ℕ) × ℕ)
      → IsCopied sign u.fw_data_buf (start sign u g) (size sign u g) 0 (blank sign u g) 0 (some p)
      → (k : ℕ) → p.0 (suc k) ≡ cmd_byte sign u g k
  copied_byte p c k =
      ap (λ (r : (ℕ → ℕ) × ℕ). r.0 (suc k)) (some-injective p (c.out, c.sum) c.returns)
      ∙ ground (arith, c.inside k, c.outside (suc k))

  abbrev own_number : ℕ
  own_number =
      if promote sign (cmd_byte sign u g 4) == 0x02
      then seq_of sign (cmd_byte sign u g 5) (cmd_byte sign u g 6)
      else 0

  pub begin_cmd-number :
      (u' : Updater) (g' : Globals)
      → begin_cmd sign u g ≡ some (u', g')
      → g'.current_data_seq ≡ own_number
  begin_cmd-number u' g' h =
      let (p, copies, rest) = begin_cmd_parts sign u g (u', g') h in
      let c =
        copy_cmd-IsCopied_back sign u.fw_data_buf (start sign u g) (size sign u g) 0
          (blank sign u g) 0 p copies in
      elim (Option-cases (note_data_cmd sign (cut sign u g p) (recount sign u g))) [
        | inl e ↦ absurd (none-ne-some (u', g') (rw e at rest))
        | inr (q, e) ↦
            fill_crc-number sign q.0 q.1 {u' = u'} {g' = g'} (rw e at rest)
            ∙ note_data_cmd-number sign (cut sign u g p) (recount sign u g) {u' = q.0} {g' = q.1} e
            ∙ rw (copied_byte p c 4, copied_byte p c 5, copied_byte p c 6) refl
      ]

-- While a command is sent, the number expected is its own.
abbrev pub NumberedAt : CharSign → (ℕ → ℕ) → Pc → ℕ → ℕ → Type 0
NumberedAt sign fw retry_cmd total seq = seq ≡ number_of sign fw (total - 1)
NumberedAt sign fw write_cmd total seq = seq ≡ number_of sign fw (total - 1)
NumberedAt sign fw wait_response total seq = seq ≡ number_of sign fw (total - 1)
NumberedAt sign fw _ total seq = Unit

abbrev pub IsNumbered : CharSign → (ℕ → ℕ) → System → Type 0
IsNumbered sign fw s =
    NumberedAt sign fw s.updater.pc s.globals.total_cmd_num s.globals.current_data_seq

module _ (sign : CharSign) (fw : ℕ → ℕ) where
  anywhere :
      (pc : Pc) (total seq : ℕ)
      → seq ≡ number_of sign fw (total - 1)
      → NumberedAt sign fw pc total seq
  anywhere retry_cmd total seq e = e
  anywhere write_cmd total seq e = e
  anywhere wait_response total seq e = e
  anywhere _ total seq e = tt

  -- The number of the command that starts at `i` in `f`.
  abbrev number_at : (ℕ → ℕ) → ℕ → ℕ
  number_at f i =
      let at : ℕ → ℕ = λ k. if ltb k (cmd_len_at f i) then f (i + k) else 0 in
      if promote sign (at 4) == 0x02 then seq_of sign (at 5) (at 6) else 0

  begun-IsNumbered :
      (s s' : System) → InOrder fw s → next_cmd sign s ≡ some s' → IsNumbered sign fw s'
  begun-IsNumbered s s' h k =
      let ((u', g'), b, same) = next_cmd-eq-some fw sign s s' k in
      let next = begin_cmd-IsNext sign s.updater s.globals u' g' b in
      let own : g'.current_data_seq ≡ number_of sign fw s.globals.total_cmd_num =
        begin_cmd-number sign s.updater s.globals u' g' b ∙ ap₂ number_at h.image h.ends in
      subst (IsNumbered sign fw) (sym same)
        (anywhere u'.pc _ _ (own ∙ ap (number_of sign fw) (omega (arith, next.counted))))

  at_place :
      (pc : Pc) (s : System)
      → s.updater.pc ≡ pc
      → IsNumbered sign fw s
      → NumberedAt sign fw pc s.globals.total_cmd_num s.globals.current_data_seq
  at_place pc s e h =
      subst (λ pc. NumberedAt sign fw pc s.globals.total_cmd_num s.globals.current_data_seq) e h

  dispatch-IsNumbered :
      (pc : Pc) (res : ℤ) (s s' : System)
      → s.updater.pc ≡ pc
      → InOrder fw s
      → IsNumbered sign fw s
      → dispatch pc sign res s ≡ some s'
      → IsNumbered sign fw s'
  dispatch-IsNumbered send_next_cmd res s s' e o h k = begun-IsNumbered s s' o k
  dispatch-IsNumbered retry_cmd res s s' e o h k =
      subst (IsNumbered sign fw) (some-injective (retry s) s' k)
        (unfold retry in anywhere _ _ _ (at_place retry_cmd s e h))
  dispatch-IsNumbered write_cmd res s s' e o h k =
      subst (IsNumbered sign fw) (sym (write-eq-some sign res s s' k))
        (anywhere _ _ _ (at_place write_cmd s e h))
  dispatch-IsNumbered wait_response res s s' e o h k =
      subst (IsNumbered sign fw) (some-injective (poll s) s' k)
        (unfold poll in anywhere _ _ _ (at_place wait_response s e h))
  dispatch-IsNumbered ota_fail res s s' e o h k =
      subst (IsNumbered sign fw) (some-injective (leave s) s' k) (unfold leave in tt)
  dispatch-IsNumbered ota_success res s s' e o h k =
      subst (IsNumbered sign fw) (some-injective (leave s) s' k) (unfold leave in tt)
  dispatch-IsNumbered returned res s s' e o h k =
      subst (IsNumbered sign fw) (some-injective s s' k) h

  reader_step-number :
      (r : ReadResult) (s : System) {s' : System}
      → reader_step sign r s ≡ some s'
      → (s'.updater ≡ s.updater)
        × (s'.globals.total_cmd_num ≡ s.globals.total_cmd_num)
        × (s'.globals.current_data_seq ≡ s.globals.current_data_seq)
  unfolding reader_step read_round on_read on_response
  reader_step-number r s h = ground arith

  reader-IsNumbered :
      (r : ReadResult) (s s' : System)
      → IsNumbered sign fw s
      → reader_step sign r s ≡ some s'
      → IsNumbered sign fw s'
  reader-IsNumbered r s s' h k =
      let (eu, et, eq) = reader_step-number r s {s' = s'} k in
      subst₃ (λ (u : Updater) t q. NumberedAt sign fw u.pc t q) (sym eu) (sym et) (sym eq) h

  pub turn-IsNumbered :
      (t : Turn) (s s' : System)
      → InOrder fw s
      → IsNumbered sign fw s
      → turn sign t s ≡ some s'
      → IsNumbered sign fw s'
  unfolding turn
  turn-IsNumbered (update_turn res) s s' o h k =
      dispatch-IsNumbered s.updater.pc res s s' refl o h (unfold update_step in k)
  turn-IsNumbered (reader_turn r) s s' o h k = reader-IsNumbered r s s' h k
