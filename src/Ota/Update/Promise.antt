-- ===== src/Ota/Update/Promise.antt =====
-- The whole of `ota_update` keeps what the sender promises.
use mathlib.Core.Path.{subst, subst₂}
use mathlib.Core.Option.{none-ne-some, some-injective}
use bt_ota_bluez_api.Common.{
  ℕ, ◌≡◌, sym, ap, ◌∙◌, inl, inr, Bool, Option, none, some, List, [], Option-cases, CharSign,
}
use bt_ota_bluez_api.Ota.Update.State.{Updater, System}
use bt_ota_bluez_api.Ota.Update.Start.{read_fw, on_open, ota_start}
use bt_ota_bluez_api.Ota.Update.Steps.{Turn, run}
use bt_ota_bluez_api.Ota.Update.Sender.{Sender, next, failed, Steps, sender_of}
use bt_ota_bluez_api.Ota.Update.Refines.{run-Simulated}
use bt_ota_bluez_api.Ota.Update.Number.{IsNumbered}
use bt_ota_bluez_api.Ota.Update.Wire.{on_open-InOrder}

-- Where the sender starts: before the first command, or failed without an image.
abbrev pub opening : Option (List ℕ) → Sender
opening none = failed
opening (some file) = next 0

on_open-opening :
    (file : Option (List ℕ)) (param2 : Option (List ℕ)) (stack : Updater) (created : Bool)
    (s s' : System)
    → on_open file param2 stack created s ≡ some s'
    → (sender_of s' ≡ opening file) × (s'.wire ≡ s.wire)
unfolding on_open
on_open-opening none param2 stack created s s' h =
    let e = some-injective _ s' h in (sym (ap sender_of e), sym (ap (λ (t : System). t.wire) e))
on_open-opening (some file) param2 stack created s s' h =
    elim (Option-cases (read_fw file 0 stack.fw_data_buf)) [
      | inl e ↦ absurd (none-ne-some s' (rw e at h))
      | inr (r, e) ↦
          let same = some-injective _ s' (rw e at h) in
          (sym (ap sender_of same), sym (ap (λ (t : System). t.wire) same))
    ]

-- Before the first command no number is expected, so any will do.
on_open-IsNumbered :
    (file : Option (List ℕ)) (param2 : Option (List ℕ)) (stack : Updater) (created : Bool)
    (sign : CharSign) (s s' : System)
    → on_open file param2 stack created s ≡ some s'
    → IsNumbered sign s'.updater.fw_data_buf s'
unfolding on_open
on_open-IsNumbered none param2 stack created sign s s' h =
    subst (λ (t : System). IsNumbered sign t.updater.fw_data_buf t) (some-injective _ s' h) tt
on_open-IsNumbered (some file) param2 stack created sign s s' h =
    elim (Option-cases (read_fw file 0 stack.fw_data_buf)) [
      | inl e ↦ absurd (none-ne-some s' (rw e at h))
      | inr (r, e) ↦
          subst (λ (t : System). IsNumbered sign t.updater.fw_data_buf t)
            (some-injective _ s' (rw e at h)) tt
    ]

-- Whatever the device answers and however the two threads take turns, a run of `ota_update` is a run
-- of the sender, one step for each turn: it starts before the first command, or failed if the file is
-- not opened, and the same packets are out at its end. So the sender goes on to the next command, or
-- finishes, only in a poll before the 750th, when the last answer heard since the command was last due
-- says so, a data response being compared with the number of the command that is sent; it sends again
-- only after a refusal or in the 750th poll; and it fails only when three sends are used up, in a
-- write that returns a negative number, or when the file is not opened.
pub ota_update-Steps :
    (name : List ℕ) (param2 : Option (List ℕ)) (fopen : List ℕ → Option (List ℕ)) (stack : Updater)
    (created : Bool) (sign : CharSign) (ts : List Turn) (s₀ s s' : System)
    → s₀.wire ≡ []
    → ota_start (some name) param2 fopen stack created s₀ ≡ some s
    → run sign ts s ≡ some s'
    → Steps sign s.updater.fw_data_buf ts (opening (fopen name)) [] (sender_of s') s'.wire
ota_update-Steps name param2 fopen stack created sign ts s₀ s s' empty h k =
    let opened : on_open (fopen name) param2 stack created s₀ ≡ some s = unfold ota_start in h in
    let (from, out) = on_open-opening (fopen name) param2 stack created s₀ s opened in
    subst₂ (λ a w. Steps sign s.updater.fw_data_buf ts a w (sender_of s') s'.wire) from
      (out ∙ empty)
      (run-Simulated s.updater.fw_data_buf sign ts s s'
        (on_open-InOrder (fopen name) param2 stack created s₀ s empty opened)
        (on_open-IsNumbered (fopen name) param2 stack created sign s₀ s opened) k)
