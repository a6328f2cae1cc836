-- ===== src/Ota/Update/Late/Round.antt =====
-- The whole round, interrupted or not.
use mathlib.Core.Path.{subst}
use mathlib.Core.Option.{none-ne-some, some-injective}
use bt_ota_bluez_api.Common.{
  ℕ, ◌≡◌, refl, sym, ap, ◌∙◌, inl, inr, Bool, true, false, Option, some, List, [], ◌∷◌, ◌==◌,
  if◌then◌else◌, CharSign, Bool-cases, Option-cases, ◌>>=◌,
}
use bt_ota_bluez_api.Common.Int.{ℤ}
use bt_ota_bluez_api.Ota.Protocol.{f_rid, f_r_cmd, start_cmd_code, data_cmd_code, finish_cmd_code}
use bt_ota_bluez_api.Ota.Reader.{read_bytes, read_round, on_read, on_response, dump_response}
use bt_ota_bluez_api.Ota.Update.State.{System}
use bt_ota_bluez_api.Ota.Update.Steps.{update_step, reader_step}
use bt_ota_bluez_api.Ota.Update.Late.{judge, assign, is_sending, go_on}
use bt_ota_bluez_api.Ota.Update.Late.Laws.{
  paired-none, paired-some, Same, rsp, answered, heard, log, char_at, judge_lem, dispatch-Same,
  go_on-heard,
}

module _ (sign : CharSign) (bytes : List ℕ) where
  go_on-Same : (results : List ℤ) (s s' : System) → go_on sign results s ≡ some s' → Same s s'
  unfolding go_on update_step
  go_on-Same [] s s' h = subst (Same s) (some-injective s s' h) (refl, refl, refl)
  go_on-Same (res ∷ results) s s' h = elim (Bool-cases (is_sending s.updater.pc)) [
    | inr out ↦ absurd (none-ne-some s' (rw out at h))
    | inl on ↦ elim (Option-cases (update_step sign res s)) [
      | inl e ↦ absurd (none-ne-some s' (rw (on, e) at h))
      | inr (m, e) ↦
          let a = dispatch-Same sign bytes s.updater.pc res s m on e in
          let b = go_on-Same results m s' (rw (on, e) at h) in (b.0 ∙ a.0, b.1 ∙ a.1, b.2 ∙ a.2)
    ]
  ]

  -- The parts put together are the globals that `on_response` gives.
  assign-heard :
      (s : System)
      → assign (heard sign bytes s).1 (heard sign bytes s).0
        ≡ record s { globals = answered sign bytes s.globals }
  unfolding on_response
  assign-heard s = elim (Bool-cases (char_at sign bytes f_rid == 0x02)) [
    | inr e ↦ rw e (rw e refl)
    | inl e ↦ elim (Bool-cases (char_at sign bytes f_r_cmd == start_cmd_code)) [
      | inl a ↦ rw (e, a) (rw e refl)
      | inr a ↦ elim (Bool-cases (char_at sign bytes f_r_cmd == data_cmd_code)) [
        | inl b ↦ rw (e, a, b) (rw e refl)
        | inr b ↦ elim (Bool-cases (char_at sign bytes f_r_cmd == finish_cmd_code)) [
          | inl c ↦ rw (e, a, b, c) (rw e refl)
          | inr c ↦ rw (e, a, b, c) (rw e refl)
        ]
      ]
    ]
  ]

  reader_step-heard :
      (s : System)
      → s.reader_running ≡ true
      → s.globals.flag_read ≡ true
      → reader_step sign (read_bytes bytes) s
        ≡ (do _ ← log sign bytes s; some (assign (heard sign bytes s).1 (heard sign bytes s).0))
  unfolding reader_step read_round on_read
  reader_step-heard s running reads =
      ap (λ b. if b then listened s.globals.flag_read else some s) running
      ∙ ap listened reads
      ∙ elim (Option-cases (log sign bytes s)) [
        | inl e ↦ rw e refl
        | inr (t, e) ↦ rw e (
            ap
              (λ b. some (record s { globals = answered sign bytes s.globals; reader_running = b }))
              (sym running)
            ∙ ap some (sym (assign-heard s)))
      ]
    where
      -- The round, by what `flagRead` is.
      listened : Bool → Option System
      listened b = do
        (g, running) ←
            if b
            then (do g' ← on_read sign bytes s.globals; some (g', true))
            else some (s.globals, false)
        some (record s { globals = g; reader_running = running })

  -- When nothing comes between its parts, a round is the step of the reading thread. When the update
  -- comes between them and begins no command and is not left, the round is one that happens as a whole
  -- when `OTAStage` is assigned: that the round is one step of the machine leaves out no behaviour but
  -- those in which a command is begun, or the update left, within a round. The thread runs, and the
  -- calls of `write` in between return anything.
  pub interrupted_round :
      (results : List ℤ) (s : System)
      → s.reader_running ≡ true
      → s.globals.flag_read ≡ true
      → (do (m, stage) ← judge sign bytes s; m' ← go_on sign results m; some (assign stage m'))
        ≡ (do s' ← go_on sign results s; reader_step sign (read_bytes bytes) s')
  interrupted_round results s running reads =
      rw (judge_lem sign bytes s) (elim (Option-cases (go_on sign results s)) [
        | inl e ↦ elim (Option-cases (log sign bytes s)) [
          | inl l ↦ rw (e, l) refl
          | inr (t, l) ↦ rw (e, l, paired-none _ (heard sign bytes s).1 (sym both ∙ rw e refl)) refl
        ]
        | inr (s', e) ↦
            let same = go_on-Same results s s' e in
            let logs : log sign bytes s' ≡ log sign bytes s =
              ap (λ (v : Bool). if v then dump_response sign (rsp sign bytes) [] else some [])
                same.0 in
            let step = reader_step-heard s' (same.2 ∙ running) (same.1 ∙ reads) in
            elim (Option-cases (log sign bytes s)) [
              | inl l ↦ rw (e, l, step, logs, l) refl
              | inr (t, l) ↦
                  let (goes, stage) =
                    paired-some _ (heard sign bytes s).1 (heard sign bytes s')
                      (sym both ∙ rw e refl) in
                  rw (e, l, goes, step, logs, l)
                    (ap (λ v. some (assign v (heard sign bytes s').0)) stage)
            ]
      ])
    where
      both :
          (do s' ← go_on sign results s; some (heard sign bytes s'))
          ≡ (do m ← go_on sign results (heard sign bytes s).0; some (m, (heard sign bytes s).1))
      both = go_on-heard sign bytes results s
