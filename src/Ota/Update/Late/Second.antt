-- ===== src/Ota/Update/Late/Second.antt =====
-- A second response to a command, heard before the next command is begun.
use bt_ota_bluez_api.Common.{
  ℕ, ◌≡◌, refl, ap, ◌∙◌, ◌+◌, ◌*◌, ◌^◌, ◌<◌, ◌≤◌, inl, inr, Bool, true, false, Option, some, List,
  [], ◌∷◌, ◌==◌, if◌then◌else◌, ltb, CharSign, unsigned_char, signed_char, ◌>>=◌, Bool-cases, arith,
  lt→ltb, ==_iff,
}
use bt_ota_bluez_api.Common.Int.{ℤ, is_negative}
use bt_ota_bluez_api.Ota.Globals.{Globals}
use bt_ota_bluez_api.Ota.Protocol.{Stage, stage_next_cmd, stage_retrying, f_rid, ota_wait_time}
use bt_ota_bluez_api.Ota.Reader.{dump_response, on_response, copy_response}
use bt_ota_bluez_api.Ota.Update.State.{
  ota_fail, wait_response, send_next_cmd, write_cmd, retry_cmd, fw_data_buf_size, System, Updater,
}
use bt_ota_bluez_api.Ota.Update.Command.{begin_cmd, cmd_len_at}
use bt_ota_bluez_api.Ota.Update.Steps.{
  update_turn, run, turn, update_step, next_cmd, retry, poll, dispatch, after_poll,
}
use bt_ota_bluez_api.Ota.Update.Written.{written, write_quiet}
use bt_ota_bluez_api.Ota.Update.Begin.{begin_cmd-IsBegun}
use bt_ota_bluez_api.Ota.Update.Cause.{Accepts}
use bt_ota_bluez_api.Ota.Update.Late.{judge, assign}
use bt_ota_bluez_api.Ota.Update.Late.Laws.{heard, judge_lem, is_verbose-heard, char_at, rsp}

itself : (n : ℕ) → (n == n) ≡ true
itself n = (==_iff n n).1 refl

-- The stage that is to be assigned for a response that lets the update go on.
heard-Accepts :
    (sign : CharSign) (bytes : List ℕ) (s : System)
    → Accepts sign bytes s.globals
    → (heard sign bytes s).1 ≡ some stage_next_cmd
unfolding on_response copy_response
heard-Accepts unsigned_char bytes s (rid, ok, inl cmd) = rw (rid, cmd, ok) refl
heard-Accepts unsigned_char bytes s (rid, ok, inr (cmd, seq)) =
    rw (rid, cmd, ok, seq) (rw (itself s.globals.current_data_seq) refl)
heard-Accepts signed_char bytes s (rid, ok, inl cmd) = rw (rid, cmd, ok) refl
heard-Accepts signed_char bytes s (rid, ok, inr (cmd, seq)) =
    rw (rid, cmd, ok, seq) (rw (itself s.globals.current_data_seq) refl)

num1-heard :
    (sign : CharSign) (bytes : List ℕ) (s : System)
    → (heard sign bytes s).0.globals.num1 ≡ s.globals.num1
unfolding on_response
num1-heard sign bytes s = elim (Bool-cases (char_at sign bytes f_rid == 0x02)) [
  | inl e ↦ rw e refl
  | inr e ↦ rw e refl
]

module _ (sign : CharSign) (bytes : List ℕ) (s : System) where
  abbrev idx : ℕ
  idx = s.updater.current_cmd_idx + s.updater.current_cmd_len

  abbrev len : ℕ
  len = cmd_len_at s.updater.fw_data_buf idx

  -- The first part of the round, then four steps of the update.
  abbrev m : System
  m = (heard sign bytes s).0

  abbrev polled : System
  polled = record m {
    updater = record s.updater { pc = send_next_cmd; wait_count = s.updater.wait_count + 1 };
  }

  abbrev begun : Updater → Globals → System
  begun u g = record polled { updater = u; globals = g }

  judged :
      Accepts sign bytes s.globals
      → s.globals.is_verbose_log ≡ false
      → judge sign bytes s ≡ some (m, some stage_next_cmd)
  judged accepts quiet =
      judge_lem sign bytes s
      ∙ ap
          (λ (v : Bool). do
            _ ← if v then dump_response sign (rsp sign bytes) [] else some []
            some (heard sign bytes s))
          quiet
      ∙ ap (λ stage. some (m, stage)) (heard-Accepts sign bytes s accepts)

  polls :
      (res : ℤ)
      → s.updater.pc ≡ wait_response
      → s.updater.wait_count + 1 < ota_wait_time
      → s.globals.ota_stage ≡ stage_next_cmd
      → update_step sign res m ≡ some polled
  unfolding update_step poll
  polls res waits early next =
      ap (λ pc. dispatch pc sign res m) waits
      ∙ ap
          (λ pc. some (record m {
            updater = record s.updater { pc = pc; wait_count = s.updater.wait_count + 1 };
          }))
          goes_on
    where
      goes_on :
          (if ltb (s.updater.wait_count + 1) ota_wait_time
            then after_poll s.globals.ota_stage
            else retry_cmd)
          ≡ send_next_cmd
      goes_on = rw (lt→ltb _ _ early, next) refl

  begins :
      (res : ℤ) (u : Updater) (g : Globals)
      → begin_cmd sign polled.updater polled.globals ≡ some (u, g)
      → update_step sign res polled ≡ some (begun u g)
  unfolding update_step next_cmd
  begins res u g e = rw e refl

  retries :
      (res : ℤ) (u : Updater) (g : Globals)
      → u.pc ≡ retry_cmd
      → update_step sign res (begun u g) ≡ some (retry (begun u g))
  unfolding update_step
  retries res u g e = ap (λ pc. dispatch pc sign res (begun u g)) e

  writes :
      (res : ℤ) (u : Updater) (g : Globals)
      → u.send_count ≡ 0
      → g.is_verbose_log ≡ false
      → update_step sign res (retry (begun u g)) ≡ some (written res (retry (begun u g)))
  unfolding update_step retry
  writes res u g fresh quiet =
      ap
        (λ n. dispatch (if ltb 3 (n + 1) then ota_fail else write_cmd) sign res (retry (begun u g)))
        fresh
      ∙ write_quiet sign res (retry (begun u g)) quiet

  -- A response is taken for one to the next command. While the code waits for a response and has got
  -- one that lets it go on, the reading thread hears another to the same command, and is interrupted
  -- before it assigns `OTAStage`. The update polls, begins the next command and sends it, and waits.
  -- Then the stage is assigned, and the next poll goes on to the command after that, though the device
  -- has not answered the one that was sent. The verbose log is off, the next command fits, and it is
  -- written without an error.
  pub second_response :
      (res₁ res₂ res₃ res₄ : ℤ)
      → Accepts sign bytes s.globals
      → s.globals.is_verbose_log ≡ false
      → s.updater.pc ≡ wait_response
      → s.updater.wait_count + 1 < ota_wait_time
      → s.globals.ota_stage ≡ stage_next_cmd
      → idx + 2 < fw_data_buf_size
      → idx + len ≤ fw_data_buf_size
      → len ≤ 1021
      → s.globals.num1 * 64900 < 2 ^ 31
      → 0 < s.updater.fw_data_len
      → is_negative res₄ ≡ false
      → (m : System) × (stage : Option Stage) × (s' : System) × (judge sign bytes s
          ≡ some (m, stage))
        × (run sign
              (update_turn res₁ ∷ update_turn res₂ ∷ update_turn res₃ ∷ update_turn res₄ ∷ [])
              m
            ≡ some s')
        × (s'.updater.pc ≡ wait_response)
        × (s'.globals.total_cmd_num ≡ m.globals.total_cmd_num + 1)
        × (s'.globals.ota_stage ≡ stage_retrying)
        × ((poll (assign stage s')).updater.pc ≡ send_next_cmd)
  unfolding run turn poll retry
  second_response res₁ res₂ res₃ res₄ accepts quiet waits early next within inside few product
        some_bytes good =
      let b =
        begin_cmd-IsBegun sign polled.updater polled.globals within inside few
          (omega (arith, num1-heard sign bytes s)) some_bytes in
      let still = b.kept.1 ∙ is_verbose-heard sign bytes s ∙ quiet in
      (
        m,
        some stage_next_cmd,
        written res₄ (retry (begun b.u' b.g')),
        judged accepts quiet,
        rw
            (
              polls res₁ waits early next,
              begins res₂ b.u' b.g' b.returns,
              retries res₃ b.u' b.g' b.at_retry,
              writes res₄ b.u' b.g' b.fresh still,
            )
            refl,
        rw good refl,
        b.staged.1,
        refl,
        refl,
      )
