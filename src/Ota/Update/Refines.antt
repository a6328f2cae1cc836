-- ===== src/Ota/Update/Refines.antt =====
-- Every run of `ota_update` is one of the sender.
use mathlib.Core.Path.{subst, subst₂, ap₂}
use mathlib.Core.Option.{none-ne-some, some-injective}
use bt_ota_bluez_api.Common.{
  ℕ, suc, ◌+◌, ◌-◌, ◌<◌, ◌≡◌, refl, sym, ◌∙◌, ap, ◌⊎◌, inl, inr, some, List, [], ◌∷◌, arith, ltb,
  CharSign, Bool-cases, Option-cases,
}
use bt_ota_bluez_api.Common.Int.{ℤ, is_negative}
use bt_ota_bluez_api.Ota.Globals.{Globals}
use bt_ota_bluez_api.Ota.Protocol.{
  Stage, stage_next_cmd, stage_err_retry, stage_complete, ota_wait_time,
}
use bt_ota_bluez_api.Ota.Update.State.{
  Pc, send_next_cmd, retry_cmd, write_cmd, wait_response, ota_fail, ota_success, returned, Updater,
  System,
}
use bt_ota_bluez_api.Ota.Update.Command.{begin_cmd}
use bt_ota_bluez_api.Ota.Update.Steps.{
  retry, poll, leave, after_poll, dispatch, Turn, update_turn, reader_turn, turn, update_step, run,
}
use bt_ota_bluez_api.Ota.Update.Written.{written, write-eq-some}
use bt_ota_bluez_api.Ota.Update.Next.{begin_cmd-IsNext}
use bt_ota_bluez_api.Ota.Update.Transcript.{InOrder, Place, IsTranscript-length}
use bt_ota_bluez_api.Ota.Update.Order.{begun_with, next_cmd-eq-some, turn-InOrder}
use bt_ota_bluez_api.Ota.Update.Sender.{
  Sender, silence, go_on, again, done, next, due, armed, waiting, failed, finished, closed, Step,
  begin, arm, exhaust, send, break, wait, confirm, repeat, finish, lapse, close_failed,
  close_finished, rest, Steps, stay, go, answer_of, sender_at, sender_of,
}
use bt_ota_bluez_api.Ota.Update.Number.{IsNumbered, turn-IsNumbered}
use bt_ota_bluez_api.Ota.Update.Hearing.{reader_step-Step}

module _ (fw : ℕ → ℕ) (sign : CharSign) where
  -- A turn, as a step of the sender.
  abbrev Simulated : Turn → System → System → Type 0
  Simulated t s s' = Step sign fw t (sender_of s) s.wire (sender_of s') s'.wire

  single :
      (t : Turn) (s s' : System) (a a' : Sender)
      → sender_of s ≡ a
      → sender_of s' ≡ a'
      → Step sign fw t a s.wire a' s'.wire
      → Simulated t s s'
  single t s s' a a' e e' step =
      subst₂ (λ b b'. Step sign fw t b s.wire b' s'.wire) (sym e) (sym e') step

  -- The sender at a place that is known.
  abbrev at : Pc → System → Sender
  at pc s =
      sender_at pc s.globals.total_cmd_num s.updater.send_count s.updater.wait_count
        s.globals.ota_stage

  known : (pc : Pc) (s : System) → s.updater.pc ≡ pc → sender_of s ≡ at pc s
  known pc s e = ap (λ pc. at pc s) e

  begin-Simulated :
      (res : ℤ) (s : System) (r : Updater × Globals)
      → s.updater.pc ≡ send_next_cmd
      → begin_cmd sign s.updater s.globals ≡ some r
      → Simulated (update_turn res) s (begun_with fw sign s r)
  begin-Simulated res s r e b =
      let n = begin_cmd-IsNext sign s.updater s.globals r.0 r.1 b in
      single (update_turn res) s (begun_with fw sign s r) (next s.globals.total_cmd_num)
        (due s.globals.total_cmd_num 0) (known send_next_cmd s e)
        (known retry_cmd (begun_with fw sign s r) n.at_retry
          ∙ ap₂ due (omega (arith, n.counted)) n.fresh)
        begin

  retry-Simulated :
      (res : ℤ) (s : System)
      → s.updater.pc ≡ retry_cmd
      → Place fw retry_cmd s
      → Simulated (update_turn res) s (retry s)
  unfolding retry
  retry-Simulated res s e (n, total, t, f) =
      let (few, _, _) = IsTranscript-length t in
      elim (Bool-cases (ltb 3 (s.updater.send_count + 1))) [
        | inl full ↦
            let three : s.updater.send_count ≡ 3 = ground arith in
            single (update_turn res) s (retry s) (due (s.globals.total_cmd_num - 1) 3) failed
              (known retry_cmd s e ∙ ap (due (s.globals.total_cmd_num - 1)) three) (rw full refl)
              exhaust
        | inr left ↦
            single (update_turn res) s (retry s)
              (due (s.globals.total_cmd_num - 1) s.updater.send_count)
              (armed (s.globals.total_cmd_num - 1) s.updater.send_count silence 0)
              (known retry_cmd s e)
              (rw left (ap (λ k. armed (s.globals.total_cmd_num - 1) k silence 0) (omega arith)))
              (arm (ground arith))
      ]

  written-Simulated :
      (res : ℤ) (s : System)
      → s.updater.pc ≡ write_cmd
      → Place fw write_cmd s
      → Simulated (update_turn res) s (written res s)
  written-Simulated res s e (k, count, few, (n, total, t, f)) =
      let a = answer_of s.globals.ota_stage in
      let w = s.updater.wait_count in
      let from : sender_of s ≡ armed n k a w =
        known write_cmd s e ∙ ap₂ (λ n k. armed n k a w) (omega arith) (omega arith) in
      elim (Bool-cases (is_negative res)) [
        | inl bad ↦
            single (update_turn res) s (written res s) (armed n k a w) failed from (rw bad refl)
              (rw bad (break bad))
        | inr good ↦
            single (update_turn res) s (written res s) (armed n k a w) (waiting n (suc k) a w) from
              (rw good (ap₂ (λ n k. waiting n k a w) (omega arith) count))
              (rw (good, f) (send good))
      ]

  -- A command that is waited for, with the answer so far.
  waits :
      (s : System) (n : ℕ) (stage : Stage)
      → s.updater.pc ≡ wait_response
      → s.globals.total_cmd_num - 1 ≡ n
      → s.globals.ota_stage ≡ stage
      → sender_of s ≡ waiting n s.updater.send_count (answer_of stage) s.updater.wait_count
  waits s n stage e number is =
      known wait_response s e
      ∙ ap₂ (λ n a. waiting n s.updater.send_count a s.updater.wait_count) number (ap answer_of is)

  after_poll-Simulated :
      (res : ℤ) (stage : Stage) (s : System)
      → s.updater.pc ≡ wait_response
      → Place fw wait_response s
      → s.globals.ota_stage ≡ stage
      → s.updater.wait_count + 1 < ota_wait_time
      → (poll s).updater.pc ≡ after_poll stage
      → Simulated (update_turn res) s (poll s)
  unfolding poll
  after_poll-Simulated res stage_next_cmd s e (pos, (n, total, t, f)) is early at =
      single (update_turn res) s (poll s)
        (waiting n s.updater.send_count go_on s.updater.wait_count) (next (suc n))
        (waits s n stage_next_cmd e (omega arith) is)
        (known send_next_cmd (poll s) at ∙ ap next total) (confirm (omega arith))
  after_poll-Simulated res stage_complete s e (pos, (n, total, t, f)) is early at =
      single (update_turn res) s (poll s) (waiting n s.updater.send_count done s.updater.wait_count)
        finished (waits s n stage_complete e (omega arith) is) (known ota_success (poll s) at)
        (finish (omega arith))
  after_poll-Simulated res stage_err_retry s e (pos, (n, total, t, f)) is early at =
      single (update_turn res) s (poll s)
        (waiting n s.updater.send_count again s.updater.wait_count) (due n s.updater.send_count)
        (waits s n stage_err_retry e (omega arith) is)
        (known retry_cmd (poll s) at ∙ ap (λ n. due n s.updater.send_count) (omega arith))
        (repeat (omega arith))
  after_poll-Simulated res stage s e (pos, (n, total, t, f)) is early at =
      single (update_turn res) s (poll s)
        (waiting n s.updater.send_count silence s.updater.wait_count)
        (waiting n s.updater.send_count silence (suc s.updater.wait_count))
        (waits s n stage e (omega arith) is)
        (known wait_response (poll s) at
          ∙ ap
              (λ a.
                waiting (s.globals.total_cmd_num - 1) s.updater.send_count a
                  (s.updater.wait_count + 1))
              (ap answer_of is)
          ∙ ap₂ (λ n t. waiting n s.updater.send_count silence t) (omega arith) (omega arith))
        (wait (omega arith))

  poll-Simulated :
      (res : ℤ) (s : System)
      → s.updater.pc ≡ wait_response
      → Place fw wait_response s
      → Simulated (update_turn res) s (poll s)
  unfolding poll
  poll-Simulated res s e p = elim (Bool-cases (ltb (s.updater.wait_count + 1) ota_wait_time)) [
    | inl soon ↦
        after_poll-Simulated res s.globals.ota_stage s e p refl (ground arith) (rw soon refl)
    | inr late ↦
        single (update_turn res) s (poll s)
          (waiting (s.globals.total_cmd_num - 1) s.updater.send_count
            (answer_of s.globals.ota_stage) s.updater.wait_count)
          (due (s.globals.total_cmd_num - 1) s.updater.send_count) (known wait_response s e)
          (known retry_cmd (poll s) (rw late refl)) (lapse (ground arith))
  ]

  leave-Simulated :
      (pc : Pc) (res : ℤ) (s : System)
      → s.updater.pc ≡ pc
      → (pc ≡ ota_fail) ⊎ (pc ≡ ota_success)
      → Simulated (update_turn res) s (leave s)
  unfolding leave
  leave-Simulated ota_fail res s e h =
      single (update_turn res) s (leave s) failed closed (known ota_fail s e) refl close_failed
  leave-Simulated ota_success res s e h =
      single (update_turn res) s (leave s) finished closed (known ota_success s e) refl
        close_finished
  leave-Simulated _ res s e h = absurd (ground arith)

  dispatch-Simulated :
      (pc : Pc) (res : ℤ) (s s' : System)
      → s.updater.pc ≡ pc
      → Place fw pc s
      → dispatch pc sign res s ≡ some s'
      → Simulated (update_turn res) s s'
  dispatch-Simulated send_next_cmd res s s' e p k =
      let (r, b, same) = next_cmd-eq-some fw sign s s' k in
      subst (Simulated (update_turn res) s) (sym same) (begin-Simulated res s r e b)
  dispatch-Simulated retry_cmd res s s' e p k =
      subst (Simulated (update_turn res) s) (some-injective (retry s) s' k)
        (retry-Simulated res s e p)
  dispatch-Simulated write_cmd res s s' e p k =
      subst (Simulated (update_turn res) s) (sym (write-eq-some sign res s s' k))
        (written-Simulated res s e p)
  dispatch-Simulated wait_response res s s' e p k =
      subst (Simulated (update_turn res) s) (some-injective (poll s) s' k)
        (poll-Simulated res s e p)
  dispatch-Simulated ota_fail res s s' e p k =
      subst (Simulated (update_turn res) s) (some-injective (leave s) s' k)
        (leave-Simulated ota_fail res s e (inl refl))
  dispatch-Simulated ota_success res s s' e p k =
      subst (Simulated (update_turn res) s) (some-injective (leave s) s' k)
        (leave-Simulated ota_success res s e (inr refl))
  dispatch-Simulated returned res s s' e p k =
      subst (Simulated (update_turn res) s) (some-injective s s' k)
        (single (update_turn res) s s closed closed (known returned s e) (known returned s e) rest)

  turn-Simulated :
      (t : Turn) (s s' : System)
      → InOrder fw s
      → IsNumbered sign fw s
      → turn sign t s ≡ some s'
      → Simulated t s s'
  unfolding turn update_step
  turn-Simulated (update_turn res) s s' h own k =
      dispatch-Simulated s.updater.pc res s s' refl h.place k
  turn-Simulated (reader_turn r) s s' h own k = reader_step-Step fw sign r s s' own k

  pub run-Simulated :
      (ts : List Turn) (s s' : System)
      → InOrder fw s
      → IsNumbered sign fw s
      → run sign ts s ≡ some s'
      → Steps sign fw ts (sender_of s) s.wire (sender_of s') s'.wire
  unfolding run
  run-Simulated [] s s' h own k =
      let same = some-injective s s' k in
      subst (λ (t : System). Steps sign fw [] (sender_of s) s.wire (sender_of t) t.wire) same stay
  run-Simulated (t ∷ ts) s s' h own k = elim (Option-cases (turn sign t s)) [
    | inl e ↦ absurd (none-ne-some s' (rw e at k))
    | inr (m, e) ↦ go (turn-Simulated t s m h own e) (
        run-Simulated ts m s' (turn-InOrder fw sign t s m h e)
          (turn-IsNumbered sign fw t s m h own e) (rw e at k))
  ]
