-- ===== src/Ota/Update/Late/Heard.antt =====
-- No command is begun but for a response that was heard.
use mathlib.Core.Path.{subst}
use mathlib.Core.Option.{none-ne-some, some-injective}
use bt_ota_bluez_api.Common.{
  ℕ, ◌≡◌, ◌≢◌, refl, sym, ap, ◌∙◌, ◌⊎◌, inl, inr, Bool, true, false, ◌&&◌, Option, none, some, List,
  [], ◌∷◌, ◌++◌, if◌then◌else◌, CharSign, Bool-cases, Option-cases,
}
use bt_ota_bluez_api.Ota.Protocol.{Stage, stage_next_cmd}
use bt_ota_bluez_api.Ota.Reader.{ReadResult, read_error, read_bytes, on_read}
use bt_ota_bluez_api.Ota.Update.State.{send_next_cmd, System}
use bt_ota_bluez_api.Ota.Update.Steps.{update_step, reader_step}
use bt_ota_bluez_api.Ota.Update.Cause.{Accepts, NotNext, on_read_next}
use bt_ota_bluez_api.Ota.Update.Reads.{if_true, if_false, reader_step-Reads}
use bt_ota_bluez_api.Ota.Update.Response.{dispatch-NotNext, next_cases}
use bt_ota_bluez_api.Ota.Update.Late.{judge, assign, assigns}
use bt_ota_bluez_api.Ota.Update.Late.Laws.{paired}
use bt_ota_bluez_api.Ota.Update.Late.Machine.{Moment, step, hear, settle, Threads, moment, moments}

-- No next command is due, nor will one be when the round ends.
abbrev pub NotNextYet : Threads → Type 0
NotNextYet (s, pending) = NotNext s × (pending ≢ some (some stage_next_cmd))

-- At this moment a response is heard that lets the update go on.
abbrev pub Hears : CharSign → Moment → System → Type 0
Hears sign now s = (bytes : List ℕ) × (now ≡ hear (read_bytes bytes)) × Accepts sign bytes s.globals

Calmly : CharSign → Moment → System → Threads → Type 0
Calmly sign now s t' = NotNextYet t' ⊎ Hears sign now s

reader_step-NotNext :
    (sign : CharSign) (r : ReadResult) (s s' : System)
    → NotNext s
    → reader_step sign r s ≡ some s'
    → NotNext s' ⊎ Hears sign (hear r) s
reader_step-NotNext sign r s s' (p, n) h =
    let (same, way) = reader_step-Reads sign r s s' h in
    elim (next_cases s'.globals.ota_stage) [
      | inr n' ↦ inl (λ e. p (sym same ∙ e), n')
      | inl e ↦ elim way [
        | inl kept ↦ absurd (n (sym kept ∙ e))
        | inr (bytes, it, read) ↦
            inr (bytes, ap hear it, on_read_next sign bytes s.globals s'.globals read n e)
      ]
    ]

-- Outside a round.
reader_step-Calmly :
    (sign : CharSign) (r : ReadResult) (s : System) (t' : Threads)
    → NotNext s
    → paired (reader_step sign r s) none ≡ some t'
    → Calmly sign (hear r) s t'
unfolding Calmly
reader_step-Calmly sign r s t' n k = elim (Option-cases (reader_step sign r s)) [
  | inl e ↦ absurd (none-ne-some t' (rw e at k))
  | inr (s', e) ↦
      subst (Calmly sign (hear r) s) (some-injective (s', none) t' (rw e at k))
        (elim (reader_step-NotNext sign r s s' n e) [
          | inl n' ↦ inl (n', λ q. absurd (none-ne-some (some stage_next_cmd) q))
          | inr heard ↦ inr heard
        ])
]

unassigned :
    (b : Bool) (stage : Stage)
    → stage ≢ stage_next_cmd
    → some (if b then some stage else none) ≢ some (some stage_next_cmd)
unassigned true stage n = λ q.
    n (some-injective stage stage_next_cmd (some-injective (some stage) (some stage_next_cmd) q))
unassigned false stage n =
    λ q. absurd (none-ne-some stage_next_cmd (some-injective none (some stage_next_cmd) q))

judge-Calmly :
    (sign : CharSign) (bytes : List ℕ) (s m : System) (stage : Option Stage)
    → NotNext s
    → judge sign bytes s ≡ some (m, stage)
    → Calmly sign (hear (read_bytes bytes)) s (m, some stage)
unfolding judge Calmly
judge-Calmly sign bytes s m stage (p, n) k = elim (Option-cases (on_read sign bytes s.globals)) [
  | inl e ↦ absurd (none-ne-some (m, stage) (rw e at k))
  | inr (g, e) ↦
      subst (Calmly sign (hear (read_bytes bytes)) s)
        (ap (λ (q : System × Option Stage). (q.0, some q.1))
          (some-injective _ (m, stage) (rw e at k)))
        (elim (next_cases g.ota_stage) [
          | inl next ↦ inr (bytes, refl, on_read_next sign bytes s.globals g e n next)
          | inr other ↦ inl ((p, n), unassigned (assigns sign g) g.ota_stage other)
        ])
]

hear-Calmly :
    (sign : CharSign) (bytes : List ℕ) (s : System) (t' : Threads)
    → NotNext s
    → moment sign (hear (read_bytes bytes)) (s, none) ≡ some t'
    → Calmly sign (hear (read_bytes bytes)) s t'
unfolding moment
hear-Calmly sign bytes s t' n k = elim (Bool-cases (s.reader_running && s.globals.flag_read)) [
  | inr off ↦ reader_step-Calmly sign (read_bytes bytes) s t' n (if_false _ _ off k)
  | inl on ↦ elim (Option-cases (judge sign bytes s)) [
    | inl e ↦ absurd (none-ne-some t' (rw e at (if_true _ _ on k)))
    | inr ((m, stage), e) ↦
        subst (Calmly sign (hear (read_bytes bytes)) s)
          (some-injective (m, some stage) t' (rw e at (if_true _ _ on k)))
          (judge-Calmly sign bytes s m stage n e)
  ]
]

assign-NotNext :
    (stage : Option Stage) (s : System)
    → NotNextYet (s, some stage)
    → NotNextYet (assign stage s, none)
assign-NotNext none s (n, q) = (n, λ e. absurd (none-ne-some (some stage_next_cmd) e))
assign-NotNext (some stage) s ((p, n), q) =
    ((p, λ e. q (ap (λ x. some (some x)) e)), λ e. absurd (none-ne-some (some stage_next_cmd) e))

moment-Calmly :
    (sign : CharSign) (now : Moment) (t t' : Threads)
    → NotNextYet t
    → moment sign now t ≡ some t'
    → Calmly sign now t.0 t'
unfolding moment Calmly
moment-Calmly sign (step res) (s, pending) t' (n, q) k =
    elim (Option-cases (update_step sign res s)) [
      | inl e ↦ absurd (none-ne-some t' (rw e at k))
      | inr (s', e) ↦ inl (
          subst NotNextYet (some-injective (s', pending) t' (rw e at k))
            (dispatch-NotNext s.updater.pc sign res s s' refl n (unfold update_step in e), q))
    ]
moment-Calmly sign (hear r) (s, some stage) t' n k =
    inl (subst NotNextYet (some-injective (s, some stage) t' k) n)
moment-Calmly sign (hear read_error) (s, none) t' (n, q) k =
    reader_step-Calmly sign read_error s t' n k
moment-Calmly sign (hear (read_bytes bytes)) (s, none) t' (n, q) k = hear-Calmly sign bytes s t' n k
moment-Calmly sign settle (s, none) t' n k =
    inl (subst NotNextYet (some-injective (s, none) t' k) n)
moment-Calmly sign settle (s, some stage) t' n k =
    inl (subst NotNextYet (some-injective (assign stage s, none) t' k) (assign-NotNext stage s n))

-- Somewhere in the schedule such a response is heard, in the state that the reading thread then finds.
abbrev pub Heard : CharSign → List Moment → Threads → Type 0
Heard sign nows t =
    (before : List Moment) × (now : Moment) × (after : List Moment) × (m : Threads) × (nows
      ≡ before ++ (now ∷ after))
    × (moments sign before t ≡ some m)
    × Hears sign now m.0

moments-Heard :
    (sign : CharSign) (nows : List Moment) (t t' : Threads)
    → NotNextYet t
    → moments sign nows t ≡ some t'
    → NotNextYet t' ⊎ Heard sign nows t
unfolding moments Calmly
moments-Heard sign [] t t' n k = inl (subst NotNextYet (some-injective t t' k) n)
moments-Heard sign (now ∷ nows) t t' n k = elim (Option-cases (moment sign now t)) [
  | inl e ↦ absurd (none-ne-some t' (rw e at k))
  | inr (m, e) ↦ elim (moment-Calmly sign now t m n e) [
    | inr heard ↦ inr ([], now, nows, t, refl, refl, heard)
    | inl n' ↦ elim (moments-Heard sign nows m t' n' (rw e at k)) [
      | inl n'' ↦ inl n''
      | inr (before, now', after, m', split, runs, heard) ↦
          inr (now ∷ before, now', after, m', ap (λ ns. now ∷ ns) split, rw e runs, heard)
    ]
  ]
]

-- From a state in which no next command is due, in every interleaving of the two threads with rounds
-- that are interrupted where `OTAStage` is assigned, the code gets to FLAG_SNED_NEXT_CMD only after
-- the device answered: on the way the reading thread heard a response with report id 2 and status
-- success to a start command, or to a data command with the number that was expected when it was
-- heard.
pub interrupted_advance_needs_answer :
    (sign : CharSign) (nows : List Moment) (t t' : Threads)
    → NotNextYet t
    → moments sign nows t ≡ some t'
    → t'.0.updater.pc ≡ send_next_cmd
    → Heard sign nows t
interrupted_advance_needs_answer sign nows t t' n k e = elim (moments-Heard sign nows t t' n k) [
  | inl ((p, _), _) ↦ absurd (p e)
  | inr heard ↦ heard
]
