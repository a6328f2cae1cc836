-- ===== src/Ota/Update/Accepted.antt =====
-- A command that the device takes at once.
use bt_ota_bluez_api.Common.{
  ℕ, ◌+◌, ◌*◌, ◌≤◌, ◌<◌, ◌^◌, ◌≡◌, refl, sym, ap, ◌∙◌, ◌⊎◌, inl, inr, true, false, some, List, [],
  ◌∷◌, arith, slice, CharSign,
}
use mathlib.Core.Path.{ap₂}
use bt_ota_bluez_api.Common.Int.{ℤ, pos, is_negative}
use bt_ota_bluez_api.Ota.Globals.{Globals}
use bt_ota_bluez_api.Ota.Reader.{read_bytes, buf_at, on_response}
use bt_ota_bluez_api.Ota.Update.State.{
  Pc, send_next_cmd, retry_cmd, write_cmd, wait_response, fw_data_buf_size, Updater, System,
}
use bt_ota_bluez_api.Ota.Update.Command.{begin_cmd, cmd_len_at}
use bt_ota_bluez_api.Ota.Update.Begin.{IsBegun, begin_cmd-IsBegun, cmd_byte}
use bt_ota_bluez_api.Ota.Update.Cause.{Accepts}
use bt_ota_bluez_api.Ota.Update.Written.{written, write_quiet}
use bt_ota_bluez_api.Ota.Update.Answers.{answered, Waiting, Accepts-next, reader_step-answered}
use bt_ota_bluez_api.Ota.Update.Steps.{
  update_turn, reader_turn, packet, turn, update_step, run, retry, poll, next_cmd, after_poll,
  dispatch,
}

-- The update is at FLAG_SNED_NEXT_CMD, with the reading thread listening and nothing logged, and the
-- next command fits the arrays.
pub record Ready (s : System) : Type 0 where
  pub at_next : s.updater.pc ≡ send_next_cmd
  pub listens : (s.reader_running ≡ true) × (s.globals.flag_read ≡ true)
  pub quiet : s.globals.is_verbose_log ≡ false
  pub header_fits : s.updater.current_cmd_idx + s.updater.current_cmd_len + 2 < fw_data_buf_size
  pub command_fits :
      let idx = s.updater.current_cmd_idx + s.updater.current_cmd_len in
      (idx + cmd_len_at s.updater.fw_data_buf idx ≤ fw_data_buf_size)
      × (cmd_len_at s.updater.fw_data_buf idx ≤ 1021)
  pub progress_fits : (s.globals.num1 * 64900 < 2 ^ 31) × (0 < s.updater.fw_data_len)

-- The response takes the next command: it answers a start command, or it has the number of the
-- command, which is a data command.
abbrev pub Takes : CharSign → List ℕ → System → Type 0
Takes sign bytes s =
    let byte = cmd_byte sign s.updater s.globals in
    (buf_at bytes 1 ≡ 2)
    × (buf_at bytes 6 ≡ 0)
    × ((buf_at bytes 3 ≡ 1)
        ⊎ ((buf_at bytes 3 ≡ 2)
            × (byte 4 ≡ 2)
            × (buf_at bytes 4 ≡ byte 5)
            × (buf_at bytes 5 ≡ byte 6)))

-- A turn of the update from a place that is known.
pub update_turn-at :
    (pc : Pc) (sign : CharSign) (res : ℤ) (s m : System)
    → s.updater.pc ≡ pc
    → dispatch pc sign res s ≡ some m
    → turn sign (update_turn res) s ≡ some m
unfolding turn update_step
update_turn-at pc sign res s m at e = ap (λ pc. dispatch pc sign res s) at ∙ e

reader_turn-at :
    (sign : CharSign) (bytes : List ℕ) (s : System)
    → Waiting s
    → turn sign (reader_turn (read_bytes bytes)) s
      ≡ some (record s { globals = answered sign bytes s.globals })
unfolding turn
reader_turn-at sign bytes s w = reader_step-answered sign bytes s w

-- The states on the way.
module _ (sign : CharSign) (n : ℕ) (bytes : List ℕ) (s : System) where
  abbrev pub begun : Updater × Globals → System
  begun r = record s { updater = r.0; globals = r.1 }

  abbrev pub sent_out : Updater × Globals → System
  sent_out r = written (pos n) (retry (begun r))

  abbrev pub taken : Updater × Globals → System
  taken r = record (sent_out r) { globals = answered sign bytes (sent_out r).globals }

  next_cmd-begun :
      (r : Updater × Globals)
      → begin_cmd sign s.updater s.globals ≡ some r
      → next_cmd sign s ≡ some (begun r)
  unfolding next_cmd
  next_cmd-begun r e = rw e

  sent_out-Waiting :
      (r : Updater × Globals)
      → (s.reader_running ≡ true) × (r.1.flag_read ≡ true)
      → r.1.is_verbose_log ≡ false
      → Waiting (sent_out r)
  unfolding retry
  sent_out-Waiting r (on, up) quiet = (ground arith, omega arith, on, up, quiet)

  retry-writes :
      (r : Updater × Globals) → r.0.send_count ≡ 0 → (retry (begun r)).updater.pc ≡ write_cmd
  unfolding retry
  retry-writes r e = ground arith

  -- The command lies ready, and the four places that follow are passed.
  pub passes :
      (b : IsBegun sign s.updater s.globals (begin_cmd sign s.updater s.globals))
      → Ready s
      → run sign
          (update_turn (pos n)
            ∷ update_turn (pos n)
            ∷ update_turn (pos n)
            ∷ reader_turn (read_bytes bytes)
            ∷ update_turn (pos n)
            ∷ [])
          s
        ≡ some (poll (taken (b.u', b.g')))
  unfolding run
  passes b h =
      let r : Updater × Globals = (b.u', b.g') in
      let quiet : b.g'.is_verbose_log ≡ false = b.kept.1 ∙ h.quiet in
      let w = sent_out-Waiting r (h.listens.0, b.kept.0 ∙ h.listens.1) quiet in
      rw (
        update_turn-at send_next_cmd sign (pos n) s (begun r) h.at_next
            (next_cmd-begun r b.returns),
        update_turn-at retry_cmd sign (pos n) (begun r) (retry (begun r)) b.at_retry refl,
        update_turn-at write_cmd sign (pos n) (retry (begun r)) (sent_out r)
            (retry-writes r b.fresh)
            (write_quiet sign (pos n) (retry (begun r)) (unfold retry in quiet)),
        reader_turn-at sign bytes (sent_out r) w,
        update_turn-at wait_response sign (pos n) (taken r) (poll (taken r)) w.0 refl,
      )

  pub wire_out : (r : Updater × Globals) → (sent_out r).wire ≡ packet r.0 ∷ s.wire
  unfolding retry
  wire_out r = let e : is_negative (pos n) ≡ false = ground arith in rw e

  -- The answer is accepted where the command has been sent.
  pub Takes-Accepts :
      (b : IsBegun sign s.updater s.globals (begin_cmd sign s.updater s.globals))
      → Takes sign bytes s
      → Accepts sign bytes (sent_out (b.u', b.g')).globals
  unfolding retry
  Takes-Accepts b (rid, ok, inl start) = (rid, ok, inl start)
  Takes-Accepts b (rid, ok, inr (code, is_data, lo, hi)) =
      (rid, ok, inr (code, rw (lo, hi) (sym (b.numbered is_data))))

  pub polls_on :
      (r : Updater × Globals)
      → Accepts sign bytes (sent_out r).globals
      → (poll (taken r)).updater.pc ≡ send_next_cmd
  unfolding poll retry
  polls_on r a = ap after_poll (Accepts-next sign bytes (sent_out r).globals a)

-- When the next command fits and the device takes it at once, five turns send it and get back to
-- FLAG_SNED_NEXT_CMD: with nothing undefined, exactly the command is written, framed and once, it is
-- counted, and the place in the image is moved behind it.
pub command_accepted :
    (sign : CharSign) (n : ℕ) (bytes : List ℕ) (s : System)
    → Ready s
    → Takes sign bytes s
    → let idx = s.updater.current_cmd_idx + s.updater.current_cmd_len in
      let len = cmd_len_at s.updater.fw_data_buf idx in
      (s' : System) × (run sign
          (update_turn (pos n)
            ∷ update_turn (pos n)
            ∷ update_turn (pos n)
            ∷ reader_turn (read_bytes bytes)
            ∷ update_turn (pos n)
            ∷ [])
          s
        ≡ some s')
      × (s'.updater.pc ≡ send_next_cmd)
      × (s'.wire ≡ (0x52 ∷ slice s.updater.fw_data_buf idx len) ∷ s.wire)
      × (s'.globals.total_cmd_num ≡ s.globals.total_cmd_num + 1)
      × (s'.updater.current_cmd_idx + s'.updater.current_cmd_len ≡ idx + len)
unfolding poll retry on_response
command_accepted sign n bytes s h t =
    let b =
      begin_cmd-IsBegun sign s.updater s.globals h.header_fits h.command_fits.0 h.command_fits.1
        h.progress_fits.0 h.progress_fits.1 in
    let r : Updater × Globals = (b.u', b.g') in
    (
      poll (taken sign n bytes s r),
      passes sign n bytes s b h,
      polls_on sign n bytes s r (Takes-Accepts sign n bytes s b t),
      wire_out sign n bytes s r ∙ ap (λ p. p ∷ s.wire) b.framed,
      ground (arith, b.staged),
      ap₂ ◌+◌ b.moved b.sized,
    )
