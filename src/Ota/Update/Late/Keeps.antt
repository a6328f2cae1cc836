-- ===== src/Ota/Update/Late/Keeps.antt =====
-- What holds of the system at every moment, also within a round of the reading thread.
use mathlib.Core.Path.{subst}
use mathlib.Core.Option.{none-ne-some, some-injective}
use bt_ota_bluez_api.Common.{
  ℕ, ◌≡◌, refl, inl, inr, ◌&&◌, Option, none, some, List, [], ◌∷◌, CharSign, Bool-cases,
  Option-cases, arith,
}
use bt_ota_bluez_api.Common.Int.{ℤ}
use bt_ota_bluez_api.Ota.Protocol.{Stage}
use bt_ota_bluez_api.Ota.Reader.{ReadResult, read_error, read_bytes, on_read, on_response}
use bt_ota_bluez_api.Ota.Update.State.{System}
use bt_ota_bluez_api.Ota.Update.Steps.{
  Turn, update_turn, reader_turn, turn, update_step, reader_step,
}
use bt_ota_bluez_api.Ota.Update.Reads.{if_true, if_false}
use bt_ota_bluez_api.Ota.Update.Late.{judge, assign}
use bt_ota_bluez_api.Ota.Update.Late.Laws.{paired}
use bt_ota_bluez_api.Ota.Update.Late.Machine.{Moment, step, hear, settle, Threads, moment, moments}

-- What the reading thread leaves as it is, whether its round is interrupted or not.
pub record Untouched (s s' : System) : Type 0 where
  pub updater : s'.updater ≡ s.updater
  pub wire : s'.wire ≡ s.wire
  pub sockets : s'.sockets ≡ s.sockets
  pub listens : s'.globals.flag_read ≡ s.globals.flag_read
  pub num1 : s'.globals.num1 ≡ s.globals.num1
  pub num2 : s'.globals.num2 ≡ s.globals.num2
  pub total : s'.globals.total_cmd_num ≡ s.globals.total_cmd_num

judge-Untouched :
    (sign : CharSign) (bytes : List ℕ) (s : System) {m : System} {stage : Option Stage}
    → judge sign bytes s ≡ some (m, stage)
    → Untouched s m
unfolding judge on_read on_response
judge-Untouched sign bytes s h = record {
  updater = ground arith;
  wire = ground arith;
  sockets = ground arith;
  listens = ground arith;
  num1 = ground arith;
  num2 = ground arith;
  total = ground arith;
}

assign-Untouched : (stage : Option Stage) (s : System) → Untouched s (assign stage s)
assign-Untouched none s = record {
  updater = refl;
  wire = refl;
  sockets = refl;
  listens = refl;
  num1 = refl;
  num2 = refl;
  total = refl;
}
assign-Untouched (some stage) s = record {
  updater = refl;
  wire = refl;
  sockets = refl;
  listens = refl;
  num1 = refl;
  num2 = refl;
  total = refl;
}

module _ (Invariant : System → Type 0) (sign : CharSign)
    (in_turn : (t : Turn) (s s' : System) → Invariant s → turn sign t s ≡ some s' → Invariant s')
    (in_round : (s s' : System) → Untouched s s' → Invariant s → Invariant s') where
  update_step_keeps :
      (res : ℤ) (s s' : System) → Invariant s → update_step sign res s ≡ some s' → Invariant s'
  update_step_keeps res s s' h k = in_turn (update_turn res) s s' h (unfold turn in k)

  reader_step_keeps :
      (r : ReadResult) (s s' : System) → Invariant s → reader_step sign r s ≡ some s' → Invariant s'
  reader_step_keeps r s s' h k = in_turn (reader_turn r) s s' h (unfold turn in k)

  -- A step whose result is paired with what is to be assigned.
  paired_keeps :
      (next : Option System) (pending : Option (Option Stage)) (t' : Threads)
      → ((s' : System) → next ≡ some s' → Invariant s')
      → paired next pending ≡ some t'
      → Invariant t'.0
  paired_keeps none pending t' keeps k = absurd (none-ne-some t' k)
  paired_keeps (some s') pending t' keeps k =
      subst (λ (t : Threads). Invariant t.0) (some-injective (s', pending) t' k) (keeps s' refl)

  hear_keeps :
      (bytes : List ℕ) (s : System) (t' : Threads)
      → Invariant s
      → moment sign (hear (read_bytes bytes)) (s, none) ≡ some t'
      → Invariant t'.0
  unfolding moment
  hear_keeps bytes s t' h k = elim (Bool-cases (s.reader_running && s.globals.flag_read)) [
    | inr off ↦
        paired_keeps (reader_step sign (read_bytes bytes) s) none t'
          (λ s'. reader_step_keeps (read_bytes bytes) s s' h) (if_false _ _ off k)
    | inl on ↦ elim (Option-cases (judge sign bytes s)) [
      | inl e ↦ absurd (none-ne-some t' (rw e at (if_true _ _ on k)))
      | inr ((m, stage), e) ↦
          subst (λ (t : Threads). Invariant t.0)
            (some-injective (m, some stage) t' (rw e at (if_true _ _ on k)))
            (in_round s m (judge-Untouched sign bytes s {m = m} {stage = stage} e) h)
    ]
  ]

  moment_keeps :
      (now : Moment) (t t' : Threads) → Invariant t.0 → moment sign now t ≡ some t' → Invariant t'.0
  unfolding moment
  moment_keeps (step res) (s, pending) t' h k =
      paired_keeps (update_step sign res s) pending t' (λ s'. update_step_keeps res s s' h) k
  moment_keeps (hear r) (s, some stage) t' h k =
      subst (λ (t : Threads). Invariant t.0) (some-injective (s, some stage) t' k) h
  moment_keeps (hear read_error) (s, none) t' h k =
      paired_keeps (reader_step sign read_error s) none t'
        (λ s'. reader_step_keeps read_error s s' h) k
  moment_keeps (hear (read_bytes bytes)) (s, none) t' h k = hear_keeps bytes s t' h k
  moment_keeps settle (s, none) t' h k =
      subst (λ (t : Threads). Invariant t.0) (some-injective (s, none) t' k) h
  moment_keeps settle (s, some stage) t' h k =
      subst (λ (t : Threads). Invariant t.0) (some-injective (assign stage s, none) t' k)
        (in_round s (assign stage s) (assign-Untouched stage s) h)

  -- An invariant of the turns that does not see a response being heard is one of all moments.
  pub moments_keeps :
      (nows : List Moment) (t t' : Threads)
      → Invariant t.0
      → moments sign nows t ≡ some t'
      → Invariant t'.0
  unfolding moments
  moments_keeps [] t t' h k = subst (λ (t : Threads). Invariant t.0) (some-injective t t' k) h
  moments_keeps (now ∷ nows) t t' h k = elim (Option-cases (moment sign now t)) [
    | inl e ↦ absurd (none-ne-some t' (rw e at k))
    | inr (m, e) ↦ moments_keeps nows m t' (moment_keeps now t m h e) (rw e at k)
  ]
