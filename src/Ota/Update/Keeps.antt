-- ===== src/Ota/Update/Keeps.antt =====
-- An invariant of the turns is one of the runs.
use mathlib.Core.Path.{subst}
use mathlib.Core.Option.{none-ne-some, some-injective}
use bt_ota_bluez_api.Common.{◌≡◌, inl, inr, some, List, [], ◌∷◌, Option-cases, CharSign}
use bt_ota_bluez_api.Ota.Update.State.{System}
use bt_ota_bluez_api.Ota.Update.Steps.{Turn, turn, run}

pub run_keeps :
    (Invariant : System → Type 0) (sign : CharSign)
    → ((t : Turn) (s s' : System) → Invariant s → turn sign t s ≡ some s' → Invariant s')
    → (ts : List Turn) (s s' : System) → Invariant s
    → run sign ts s ≡ some s'
    → Invariant s'
unfolding run
run_keeps Invariant sign step [] s s' h k = subst Invariant (some-injective s s' k) h
run_keeps Invariant sign step (t ∷ ts) s s' h k = elim (Option-cases (turn sign t s)) [
  | inl e ↦ absurd (none-ne-some s' (rw e at k))
  | inr (m, e) ↦ run_keeps Invariant sign step ts m s' (step t s m h e) (rw e at k)
]
