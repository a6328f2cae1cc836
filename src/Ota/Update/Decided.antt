-- ===== src/Ota/Update/Decided.antt =====
-- A command is decided within a bounded number of the update's steps, whatever the device does.
use mathlib.Core.Path.{subst}
use bt_ota_bluez_api.Common.{
  ℕ, suc, ◌+◌, ◌-◌, ◌*◌, ◌≤◌, ◌<◌, ◌≡◌, refl, sym, ◌∙◌, ap, ◌⊎◌, inl, inr, false, none, some, List,
  [], ◌∷◌, ◌++◌, arith, Option-cases, CharSign,
}
use bt_ota_bluez_api.Common.Int.{ℤ}
use bt_ota_bluez_api.Ota.Reader.{ReadResult, read_round, on_read, on_response}
use bt_ota_bluez_api.Ota.Update.State.{
  Pc, send_next_cmd, retry_cmd, write_cmd, wait_response, ota_fail, ota_success, returned, Updater,
  System,
}
use bt_ota_bluez_api.Ota.Update.Written.{written, write_quiet}
use bt_ota_bluez_api.Ota.Update.Steps.{
  retry, poll, Turn, update_turn, reader_turn, turn, update_step, reader_step, run, dispatch,
}

-- The command is in flight: to be sent, being sent or waited for.
abbrev pub InFlight : Pc → Type 0
InFlight retry_cmd = Unit
InFlight write_cmd = Unit
InFlight wait_response = Unit
InFlight _ = ⊥

-- It is decided: the next one is due, or the update ends.
abbrev pub Decided : Pc → Type 0
Decided retry_cmd = ⊥
Decided write_cmd = ⊥
Decided wait_response = ⊥
Decided _ = Unit

-- The steps that the update may still take for the command: 752 for each time that it is sent, one
-- to count it, one to write it and 750 to wait; and one to give up.
abbrev pub steps_left : Pc → ℕ → ℕ → ℕ
steps_left retry_cmd sends waits = (3 - sends) * 752 + 1
steps_left write_cmd sends waits = (3 - sends) * 752 + 752
steps_left wait_response sends waits = (3 - sends) * 752 + 751 - waits
steps_left _ sends waits = 0

abbrev pub steps_of : System → ℕ
steps_of s = steps_left s.updater.pc s.updater.send_count s.updater.wait_count

-- The counters of a command in flight.
abbrev pub Counted : Pc → ℕ → ℕ → Type 0
Counted retry_cmd sends waits = sends ≤ 3
Counted write_cmd sends waits = (0 < sends) × (sends ≤ 3) × (waits ≡ 0)
Counted wait_response sends waits = (0 < sends) × (sends ≤ 3) × (waits < 750)
Counted _ sends waits = Unit

abbrev pub CountedIn : System → Type 0
CountedIn s = Counted s.updater.pc s.updater.send_count s.updater.wait_count

-- How many turns of a schedule are the update's.
abbrev pub update_turns : List Turn → ℕ
update_turns [] = 0
update_turns (update_turn res ∷ ts) = suc (update_turns ts)
update_turns (reader_turn r ∷ ts) = update_turns ts

retry-steps :
    (s : System)
    → s.updater.pc ≡ retry_cmd
    → CountedIn s
    → CountedIn (retry s) × (steps_of (retry s) < steps_of s)
unfolding retry
retry-steps s e c = ground arith

poll-steps :
    (s : System)
    → s.updater.pc ≡ wait_response
    → CountedIn s
    → CountedIn (poll s) × (steps_of (poll s) < steps_of s)
unfolding poll
poll-steps s e c = ground arith

written-steps :
    (res : ℤ) (s : System)
    → s.updater.pc ≡ write_cmd
    → CountedIn s
    → CountedIn (written res s) × (steps_of (written res s) < steps_of s)
written-steps res s e c = ground arith

-- One step for a command in flight.
abbrev Step : CharSign → ℤ → System → Type 0
Step sign res s =
    (s' : System) × (update_step sign res s ≡ some s')
    × CountedIn s'
    × (steps_of s' < steps_of s)
    × (s'.globals.is_verbose_log ≡ s.globals.is_verbose_log)

dispatch-Step :
    (pc : Pc) (sign : CharSign) (res : ℤ) (s : System)
    → s.updater.pc ≡ pc
    → InFlight pc
    → s.globals.is_verbose_log ≡ false
    → CountedIn s
    → Step sign res s
unfolding update_step
dispatch-Step retry_cmd sign res s e f quiet c =
    let (c', less) = retry-steps s e c in
    (retry s, ap (λ pc. dispatch pc sign res s) e, c', less, unfold retry in refl)
dispatch-Step write_cmd sign res s e f quiet c =
    let (c', less) = written-steps res s e c in
    (
      written res s,
      ap (λ pc. dispatch pc sign res s) e ∙ write_quiet sign res s quiet,
      c',
      less,
      refl,
    )
dispatch-Step wait_response sign res s e f quiet c =
    let (c', less) = poll-steps s e c in
    (poll s, ap (λ pc. dispatch pc sign res s) e, c', less, unfold poll in refl)
dispatch-Step send_next_cmd sign res s e f quiet c = absurd f
dispatch-Step ota_fail sign res s e f quiet c = absurd f
dispatch-Step ota_success sign res s e f quiet c = absurd f
dispatch-Step returned sign res s e f quiet c = absurd f

-- The reading thread leaves the update's locals and the log's flag alone, and with the log off it
-- does nothing undefined.
reader-cases :
    (sign : CharSign) (r : ReadResult) (s : System)
    → s.globals.is_verbose_log ≡ false
    → (s' : System) × (reader_step sign r s ≡ some s')
      × (s'.updater ≡ s.updater)
      × (s'.globals.is_verbose_log ≡ false)
reader-cases sign r s quiet = elim (Option-cases (reader_step sign r s)) [
  | inl e ↦ absurd (defined e)
  | inr (s', e) ↦ (s', e, kept s' e, still s' e)
]
  where
    defined : reader_step sign r s ≡ none → ⊥
    defined e = unfold reader_step read_round on_read on_response in ground arith

    kept : (s' : System) → reader_step sign r s ≡ some s' → s'.updater ≡ s.updater
    kept s' e = unfold reader_step read_round on_read on_response in ground arith

    still : (s' : System) → reader_step sign r s ≡ some s' → s'.globals.is_verbose_log ≡ false
    still s' e = unfold reader_step read_round on_read on_response in ground arith

flight-cases : (pc : Pc) → InFlight pc ⊎ Decided pc
flight-cases retry_cmd = inl tt
flight-cases write_cmd = inl tt
flight-cases wait_response = inl tt
flight-cases send_next_cmd = inr tt
flight-cases ota_fail = inr tt
flight-cases ota_success = inr tt
flight-cases returned = inr tt

InFlight-pos :
    (pc : Pc) (sends waits : ℕ)
    → InFlight pc
    → Counted pc sends waits
    → 0 < steps_left pc sends waits
InFlight-pos pc sends waits f c = ground arith

-- A part of the schedule leads to a state in which the command is decided.
abbrev pub GetsDecided : CharSign → List Turn → System → Type 0
GetsDecided sign ts s =
    (ts₁ : List Turn) × (ts₂ : List Turn) × (s' : System) × (ts ≡ ts₁ ++ ts₂)
    × (run sign ts₁ s ≡ some s')
    × Decided s'.updater.pc

GetsDecided-cons :
    (sign : CharSign) (t : Turn) (ts : List Turn) (s m : System)
    → turn sign t s ≡ some m
    → GetsDecided sign ts m
    → GetsDecided sign (t ∷ ts) s
unfolding run
GetsDecided-cons sign t ts s m e (ts₁, ts₂, s', split, runs, d) =
    (t ∷ ts₁, ts₂, s', ap (λ xs. t ∷ xs) split, rw e runs, d)

Decided-now :
    (sign : CharSign) (t : Turn) (ts : List Turn) (s m : System)
    → turn sign t s ≡ some m
    → Decided m.updater.pc
    → GetsDecided sign (t ∷ ts) s
unfolding run
Decided-now sign t ts s m e d = (t ∷ [], ts, m, refl, rw e refl, d)

-- With the verbose log off, a command in flight is decided within the steps that are left to it,
-- whatever the device answers and `write` returns and however the turns are mixed: once a schedule
-- has as many turns of the update, a part of it leads, with nothing undefined, to the next command
-- or to one of the two exits. A fresh command has 2257 steps.
pub command_decided :
    (sign : CharSign) (ts : List Turn) (s : System)
    → InFlight s.updater.pc
    → s.globals.is_verbose_log ≡ false
    → CountedIn s
    → steps_of s ≤ update_turns ts
    → GetsDecided sign ts s
command_decided sign [] s f quiet c enough =
    absurd (omega (arith, InFlight-pos s.updater.pc s.updater.send_count s.updater.wait_count f c))
command_decided sign (update_turn res ∷ ts) s f quiet c enough =
    let (m, e, c', less, same) = dispatch-Step s.updater.pc sign res s refl f quiet c in
    elim (flight-cases m.updater.pc) [
      | inr d ↦ Decided-now sign (update_turn res) ts s m (unfold turn in e) d
      | inl f' ↦
          GetsDecided-cons sign (update_turn res) ts s m (unfold turn in e)
            (command_decided sign ts m f' (same ∙ quiet) c' (omega arith))
    ]
command_decided sign (reader_turn r ∷ ts) s f quiet c enough =
    let (m, e, same, quiet') = reader-cases sign r s quiet in
    let At : Updater → Type 0 = λ u.
      InFlight u.pc
      × Counted u.pc u.send_count u.wait_count
      × (steps_left u.pc u.send_count u.wait_count ≤ update_turns ts) in
    let (f', c', enough') = subst At (sym same) (f, c, enough) in
    GetsDecided-cons sign (reader_turn r) ts s m (unfold turn in e)
      (command_decided sign ts m f' quiet' c' enough')
