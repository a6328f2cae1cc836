-- ===== src/Ota/Update/Response.antt =====
-- No command is begun and the update does not succeed but for a response that says so.
use mathlib.Core.Path.{subst}
use mathlib.Core.Option.{none-ne-some, some-injective}
use bt_ota_bluez_api.Common.{
  ℕ, ◌≡◌, ◌≢◌, refl, sym, ap, ◌∙◌, ◌⊎◌, inl, inr, some, List, [], ◌∷◌, ◌++◌, arith, Option-cases,
  CharSign,
}
use bt_ota_bluez_api.Common.Int.{ℤ}
use bt_ota_bluez_api.Ota.Globals.{Globals}
use bt_ota_bluez_api.Ota.Protocol.{Stage, stage_next_cmd, stage_complete}
use bt_ota_bluez_api.Ota.Reader.{read_bytes}
use bt_ota_bluez_api.Ota.Update.State.{
  Pc, send_next_cmd, retry_cmd, write_cmd, wait_response, ota_fail, ota_success, returned, System,
}
use bt_ota_bluez_api.Ota.Update.Steps.{
  Turn, update_turn, reader_turn, turn, update_step, run, dispatch, retry, poll, leave,
}
use bt_ota_bluez_api.Ota.Update.Written.{write-eq-some}
use bt_ota_bluez_api.Ota.Update.Order.{next_cmd-eq-some}
use bt_ota_bluez_api.Ota.Update.Next.{begin_cmd-IsNext}
use bt_ota_bluez_api.Ota.Update.Cause.{
  Accepts, Completes, NotNext, NotComplete, on_read_next, on_read_complete,
}
use bt_ota_bluez_api.Ota.Update.Reads.{reader_step-Reads}

pub next_cases : (stage : Stage) → (stage ≡ stage_next_cmd) ⊎ (stage ≢ stage_next_cmd)
next_cases stage = ground arith

complete_cases : (stage : Stage) → (stage ≡ stage_complete) ⊎ (stage ≢ stage_complete)
complete_cases stage = ground arith

-- A turn of the update begins a command only from NotNext's contrary.
pub dispatch-NotNext :
    (pc : Pc) (sign : CharSign) (res : ℤ) (s s' : System)
    → s.updater.pc ≡ pc
    → NotNext s
    → dispatch pc sign res s ≡ some s'
    → NotNext s'
dispatch-NotNext send_next_cmd sign res s s' e (p, n) h = absurd (p e)
dispatch-NotNext retry_cmd sign res s s' e (p, n) h =
    subst NotNext (some-injective (retry s) s' h) (unfold retry in (ground arith, ground arith))
dispatch-NotNext write_cmd sign res s s' e (p, n) h =
    subst NotNext (sym (write-eq-some sign res s s' h)) (ground arith, n)
dispatch-NotNext wait_response sign res s s' e (p, n) h =
    subst NotNext (some-injective (poll s) s' h) (unfold poll in (ground arith, n))
dispatch-NotNext ota_fail sign res s s' e (p, n) h =
    subst NotNext (some-injective (leave s) s' h) (unfold leave in (ground arith, n))
dispatch-NotNext ota_success sign res s s' e (p, n) h =
    subst NotNext (some-injective (leave s) s' h) (unfold leave in (ground arith, n))
dispatch-NotNext returned sign res s s' e n h = subst NotNext (some-injective s s' h) n

dispatch-NotComplete :
    (pc : Pc) (sign : CharSign) (res : ℤ) (s s' : System)
    → s.updater.pc ≡ pc
    → NotComplete s
    → dispatch pc sign res s ≡ some s'
    → NotComplete s'
dispatch-NotComplete send_next_cmd sign res s s' e (p, n) h =
    let (r, b, same) = next_cmd-eq-some (λ _. 0) sign s s' h in
    let next = begin_cmd-IsNext sign s.updater s.globals r.0 r.1 b in
    subst NotComplete (sym same)
      (λ q. absurd (ground (arith, next.at_retry)), λ q. absurd (ground (arith, next.staged)))
dispatch-NotComplete retry_cmd sign res s s' e (p, n) h =
    subst NotComplete (some-injective (retry s) s' h) (unfold retry in (ground arith, ground arith))
dispatch-NotComplete write_cmd sign res s s' e (p, n) h =
    subst NotComplete (sym (write-eq-some sign res s s' h)) (ground arith, n)
dispatch-NotComplete wait_response sign res s s' e (p, n) h =
    subst NotComplete (some-injective (poll s) s' h) (unfold poll in (ground arith, n))
dispatch-NotComplete ota_fail sign res s s' e (p, n) h =
    subst NotComplete (some-injective (leave s) s' h) (unfold leave in (ground arith, n))
dispatch-NotComplete ota_success sign res s s' e (p, n) h = absurd (p e)
dispatch-NotComplete returned sign res s s' e n h = subst NotComplete (some-injective s s' h) n

-- A turn of either thread.
Caused : (CharSign → List ℕ → Globals → Type 0) → CharSign → Turn → Globals → Type 0
Caused Cause sign t g = (bytes : List ℕ) × (t ≡ reader_turn (read_bytes bytes)) × Cause sign bytes g

turn-NotNext :
    (sign : CharSign) (t : Turn) (s s' : System)
    → NotNext s
    → turn sign t s ≡ some s'
    → NotNext s' ⊎ Caused Accepts sign t s.globals
unfolding turn Caused
turn-NotNext sign (update_turn res) s s' n h =
    inl (dispatch-NotNext s.updater.pc sign res s s' refl n (unfold update_step in h))
turn-NotNext sign (reader_turn r) s s' (p, n) h =
    let (same, way) = reader_step-Reads sign r s s' h in
    elim (next_cases s'.globals.ota_stage) [
      | inr n' ↦ inl (λ e. p (sym same ∙ e), n')
      | inl e ↦ elim way [
        | inl kept ↦ absurd (n (sym kept ∙ e))
        | inr (bytes, it, read) ↦
            inr (bytes, ap reader_turn it, on_read_next sign bytes s.globals s'.globals read n e)
      ]
    ]

turn-NotComplete :
    (sign : CharSign) (t : Turn) (s s' : System)
    → NotComplete s
    → turn sign t s ≡ some s'
    → NotComplete s' ⊎ Caused Completes sign t s.globals
unfolding turn Caused
turn-NotComplete sign (update_turn res) s s' n h =
    inl (dispatch-NotComplete s.updater.pc sign res s s' refl n (unfold update_step in h))
turn-NotComplete sign (reader_turn r) s s' (p, n) h =
    let (same, way) = reader_step-Reads sign r s s' h in
    elim (complete_cases s'.globals.ota_stage) [
      | inr n' ↦ inl (λ e. p (sym same ∙ e), n')
      | inl e ↦ elim way [
        | inl kept ↦ absurd (n (sym kept ∙ e))
        | inr (bytes, it, read) ↦
            inr
              (bytes, ap reader_turn it, on_read_complete sign bytes s.globals s'.globals read n e)
      ]
    ]

-- Somewhere in the schedule the reading thread reads such a response, in the state it then finds.
abbrev pub Reading : (CharSign → List ℕ → Globals → Type 0) → CharSign → List Turn → System → Type 0
Reading Cause sign ts s =
    (ts₁ : List Turn) × (bytes : List ℕ) × (ts₂ : List Turn) × (m : System) × (ts
      ≡ ts₁ ++ (reader_turn (read_bytes bytes) ∷ ts₂))
    × (run sign ts₁ s ≡ some m)
    × Cause sign bytes m.globals

module _ (Cause : CharSign → List ℕ → Globals → Type 0) (Calm : System → Type 0) (sign : CharSign)
    (one : (t : Turn) (s s' : System)
      → Calm s
      → turn sign t s ≡ some s'
      → Calm s' ⊎ Caused Cause sign t s.globals) where
  -- A run that leaves the calm states has read a response that is a cause.
  leaves :
      (ts : List Turn) (s s' : System)
      → Calm s
      → run sign ts s ≡ some s'
      → Calm s' ⊎ Reading Cause sign ts s
  unfolding run Caused
  leaves [] s s' c h = inl (subst Calm (some-injective s s' h) c)
  leaves (t ∷ ts) s s' c h = elim (Option-cases (turn sign t s)) [
    | inl e ↦ absurd (none-ne-some s' (rw e at h))
    | inr (m, e) ↦ elim (one t s m c e) [
      | inr (bytes, it, cause) ↦ inr ([], bytes, ts, s, ap (λ t. t ∷ ts) it, refl, cause)
      | inl c' ↦ elim (leaves ts m s' c' (rw e at h)) [
        | inl c'' ↦ inl c''
        | inr (ts₁, bytes, ts₂, k, split, runs, cause) ↦
            inr (t ∷ ts₁, bytes, ts₂, k, ap (λ ts. t ∷ ts) split, rw e runs, cause)
      ]
    ]
  ]

-- From a state in which no next command is due, the code gets to FLAG_SNED_NEXT_CMD only after the
-- device answered: on the way the reading thread read a response with report id 2 and status
-- success to a start command, or to a data command with the number that was then expected.
pub advance_needs_answer :
    (sign : CharSign) (ts : List Turn) (s s' : System)
    → NotNext s
    → run sign ts s ≡ some s'
    → s'.updater.pc ≡ send_next_cmd
    → Reading Accepts sign ts s
advance_needs_answer sign ts s s' n h e =
    elim (leaves Accepts NotNext sign (turn-NotNext sign) ts s s' n h) [
      | inl (p, _) ↦ absurd (p e)
      | inr r ↦ r
    ]

-- From a state in which success is not due, the code gets to FLAG_OTA_SUCCESS only after the device
-- said so: on the way the reading thread read a response with report id 2 that is a success to a
-- finish command, or that says that no update is needed, to a start command, to a finish command or
-- to a data command with the number that was then expected.
pub success_needs_completion :
    (sign : CharSign) (ts : List Turn) (s s' : System)
    → NotComplete s
    → run sign ts s ≡ some s'
    → s'.updater.pc ≡ ota_success
    → Reading Completes sign ts s
success_needs_completion sign ts s s' n h e =
    elim (leaves Completes NotComplete sign (turn-NotComplete sign) ts s s' n h) [
      | inl (p, _) ↦ absurd (p e)
      | inr r ↦ r
    ]
