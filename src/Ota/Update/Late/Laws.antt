-- ===== src/Ota/Update/Late/Laws.antt =====
-- An interrupted round is one that happens when the stage is assigned, if no command is begun in it.
use mathlib.Core.Path.{subst}
use mathlib.Core.Option.{none-ne-some, some-injective}
use bt_ota_bluez_api.Common.{
  ℕ, ◌≡◌, refl, sym, ap, ◌∙◌, inl, inr, true, Option, none, some, List, [], ◌∷◌, ◌==◌,
  if◌then◌else◌, get_or, CharSign, promote, Bool-cases, Option-cases, ◌>>=◌, arith,
}
use bt_ota_bluez_api.Common.Int.{ℤ}
use bt_ota_bluez_api.Ota.Globals.{Globals}
use bt_ota_bluez_api.Ota.Protocol.{
  Stage, f_rid, f_r_cmd, start_cmd_code, data_cmd_code, finish_cmd_code, rsp_cmd_len,
}
use bt_ota_bluez_api.Ota.Reader.{on_read, on_response, copy_response, dump_response}
use bt_ota_bluez_api.Ota.Writer.{hid_write}
use bt_ota_bluez_api.Ota.Update.State.{
  Pc, send_next_cmd, retry_cmd, write_cmd, wait_response, ota_fail, ota_success, returned, System,
}
use bt_ota_bluez_api.Ota.Update.Steps.{packet, retry, write, poll, dispatch, update_step}
use bt_ota_bluez_api.Ota.Update.Written.{write-eq-some}
use bt_ota_bluez_api.Ota.Update.Late.{assigns, judge, is_sending, go_on}

-- What was paired with a value that is passed along.
abbrev pub paired : {A B : Type 0} → Option A → B → Option (A × B)
paired o v = do a ← o; some (a, v)

pub paired-none : {A B : Type 0} (o : Option A) (v : B) → paired o v ≡ none → o ≡ none
paired-none none v h = refl
paired-none (some a) v h = absurd (none-ne-some (a, v) (sym h))

pub paired-some :
    {A B : Type 0} (o : Option A) (v : B) (p : A × B)
    → paired o v ≡ some p
    → (o ≡ some p.0) × (v ≡ p.1)
paired-some none v p h = absurd (none-ne-some p h)
paired-some (some a) v p h =
    let e = some-injective (a, v) p h in (ap (λ q. some q.0) e, ap (λ q. q.1) e)

-- What the reading thread's rounds depend on.
abbrev pub Same : System → System → Type 0
Same s s' =
    (s'.globals.is_verbose_log ≡ s.globals.is_verbose_log)
    × (s'.globals.flag_read ≡ s.globals.flag_read)
    × (s'.reader_running ≡ s.reader_running)

module _ (sign : CharSign) (bytes : List ℕ) where
  abbrev pub rsp : List ℕ
  rsp = copy_response rsp_cmd_len 0 bytes

  abbrev pub answered : Globals → Globals
  answered g = on_response sign (record g { rsp_cmd = rsp })

  -- The first part, where the log's buffers suffice.
  abbrev pub heard : System → System × Option Stage
  heard s =
      let g = answered s.globals in
      (
        record s { globals = record g { ota_stage = s.globals.ota_stage } },
        if assigns sign g then some g.ota_stage else none,
      )

  abbrev pub log : System → Option (List ℕ)
  log s = if s.globals.is_verbose_log then dump_response sign rsp [] else some []

  pub judge_lem : (s : System) → judge sign bytes s ≡ (do _ ← log s; some (heard s))
  unfolding judge on_read
  judge_lem s = elim (Option-cases (log s)) [ inl e ↦ rw e refl | inr (t, e) ↦ rw e refl ]

  -- A char of the response.
  abbrev pub char_at : ℕ → ℕ
  char_at i = promote sign (get_or rsp i 0)

  poll-heard : (s : System) → heard (poll s) ≡ (poll (heard s).0, (heard s).1)
  unfolding poll
  poll-heard s = refl

  retry-heard : (s : System) → heard (retry s) ≡ (retry (heard s).0, (heard s).1)
  unfolding retry on_response
  retry-heard s = elim (Bool-cases (char_at f_rid == 0x02)) [
    | inr e ↦ rw e (rw e refl)
    | inl e ↦ elim (Bool-cases (char_at f_r_cmd == start_cmd_code)) [
      | inl a ↦ rw (e, a) refl
      | inr a ↦ elim (Bool-cases (char_at f_r_cmd == data_cmd_code)) [
        | inl b ↦ rw (e, a, b) refl
        | inr b ↦ elim (Bool-cases (char_at f_r_cmd == finish_cmd_code)) [
          | inl c ↦ rw (e, a, b, c) refl
          | inr c ↦ rw (e, a, b, c) (rw e refl)
        ]
      ]
    ]
  ]

  pub is_verbose-heard :
      (s : System) → (heard s).0.globals.is_verbose_log ≡ s.globals.is_verbose_log
  unfolding on_response
  is_verbose-heard s = elim (Bool-cases (char_at f_rid == 0x02)) [
    | inl e ↦ rw e refl
    | inr e ↦ rw e refl
  ]

  -- Both orders of the first part and a step of the update, the log left aside.
  write-heard :
      (res : ℤ) (s : System)
      → (do s' ← write sign res s; some (heard s'))
        ≡ (do m ← write sign res (heard s).0; some (m, (heard s).1))
  unfolding write
  write-heard res s =
      let same = ap (λ v. hid_write sign v (packet s.updater) res) (is_verbose-heard s) in
      elim (Option-cases (hid_write sign s.globals.is_verbose_log (packet s.updater) res)) [
        | inl e ↦ rw (e, same ∙ e) refl
        | inr (ret, e) ↦ rw (e, same ∙ e) refl
      ]

  dispatch-heard :
      (pc : Pc) (res : ℤ) (s : System)
      → is_sending pc ≡ true
      → (do s' ← dispatch pc sign res s; some (heard s'))
        ≡ (do m ← dispatch pc sign res (heard s).0; some (m, (heard s).1))
  dispatch-heard retry_cmd res s h = ap some (retry-heard s)
  dispatch-heard write_cmd res s h = write-heard res s
  dispatch-heard wait_response res s h = ap some (poll-heard s)
  dispatch-heard send_next_cmd res s h = absurd (ground arith)
  dispatch-heard ota_fail res s h = absurd (ground arith)
  dispatch-heard ota_success res s h = absurd (ground arith)
  dispatch-heard returned res s h = absurd (ground arith)

  -- No step between the parts turns the log on or off, or stops the thread.
  pub dispatch-Same :
      (pc : Pc) (res : ℤ) (s s' : System)
      → is_sending pc ≡ true
      → dispatch pc sign res s ≡ some s'
      → Same s s'
  dispatch-Same retry_cmd res s s' h k =
      subst (λ t. Same s t) (some-injective (retry s) s' k) (unfold retry in (refl, refl, refl))
  dispatch-Same write_cmd res s s' h k =
      subst (λ t. Same s t) (sym (write-eq-some sign res s s' k)) (refl, refl, refl)
  dispatch-Same wait_response res s s' h k =
      subst (λ t. Same s t) (some-injective (poll s) s' k) (unfold poll in (refl, refl, refl))
  dispatch-Same send_next_cmd res s s' h k = absurd (ground arith)
  dispatch-Same ota_fail res s s' h k = absurd (ground arith)
  dispatch-Same ota_success res s s' h k = absurd (ground arith)
  dispatch-Same returned res s s' h k = absurd (ground arith)

  -- The update's steps commute with the first part.
  pub go_on-heard :
      (results : List ℤ) (s : System)
      → (do s' ← go_on sign results s; some (heard s'))
        ≡ (do m ← go_on sign results (heard s).0; some (m, (heard s).1))
  unfolding go_on update_step
  go_on-heard [] s = refl
  go_on-heard (res ∷ results) s = elim (Bool-cases (is_sending s.updater.pc)) [
    | inr out ↦ rw out refl
    | inl on ↦
        let both = dispatch-heard s.updater.pc res s on in
        elim (Option-cases (update_step sign res s)) [
          | inl e ↦
              rw
                (
                  on,
                  e,
                  paired-none (update_step sign res (heard s).0) (heard s).1 (sym both ∙ rw e refl),
                )
                refl
          | inr (s', e) ↦
              let (steps, same) =
                paired-some (update_step sign res (heard s).0) (heard s).1 (heard s')
                  (sym both ∙ rw e refl) in
              rw (on, e, steps)
                (go_on-heard results s' ∙ ap (paired (go_on sign results (heard s').0)) (sym same))
        ]
  ]
