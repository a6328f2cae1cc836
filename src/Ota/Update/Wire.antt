-- ===== src/Ota/Update/Wire.antt =====
-- A whole run of `ota_update`: what it sends.
use mathlib.Core.Path.{subst, subst₂}
use mathlib.Core.Option.{none-ne-some, some-injective}
use bt_ota_bluez_api.Common.{
  ℕ, ◌≡◌, refl, sym, inl, inr, Bool, Option, none, some, List, [], arith, ◌+◌, ◌⊎◌, Option-cases,
  CharSign,
}
use bt_ota_bluez_api.Ota.Update.State.{Updater, System, ota_fail, send_next_cmd}
use bt_ota_bluez_api.Ota.Update.Start.{read_fw, on_open, ota_start}
use bt_ota_bluez_api.Ota.Update.Steps.{Turn, run}
use bt_ota_bluez_api.Ota.Update.Transcript.{offset, InOrder, IsTranscript, nothing, Place}
use bt_ota_bluez_api.Ota.Update.Packets.{Sent, run-Sent}

-- Before the first command nothing was sent.
fresh-InOrder :
    (s : System)
    → s.wire ≡ []
    → s.globals.total_cmd_num ≡ 0
    → s.updater.current_cmd_idx ≡ 0
    → s.updater.current_cmd_len ≡ 0
    → (s.updater.pc ≡ send_next_cmd) ⊎ (s.updater.pc ≡ ota_fail)
    → InOrder s.updater.fw_data_buf s
fresh-InOrder s empty none_yet at_0 size_0 at = record {
  image = refl;
  ends =
      subst (λ n. s.updater.current_cmd_idx + s.updater.current_cmd_len ≡ offset fw n)
        (sym none_yet) (omega arith);
  place = elim at [
    | inl e ↦
        subst (λ pc. Place fw pc s) (sym e)
          (
            0,
            subst₂ (λ n w. IsTranscript fw n 0 w) (sym none_yet) (sym empty) nothing,
            inl none_yet,
          )
    | inr e ↦
        subst (λ pc. Place fw pc s) (sym e)
          (0, 0, omega arith, subst (λ w. IsTranscript fw 0 0 w) (sym empty) nothing)
  ];
}
  where
    fw : ℕ → ℕ
    fw = s.updater.fw_data_buf

pub on_open-InOrder :
    (file : Option (List ℕ)) (param2 : Option (List ℕ)) (stack : Updater) (created : Bool)
    (s s' : System)
    → s.wire ≡ []
    → on_open file param2 stack created s ≡ some s'
    → InOrder s'.updater.fw_data_buf s'
unfolding on_open
on_open-InOrder none param2 stack created s s' empty h =
    let InItsOrder : System → Type 0 = λ t. InOrder t.updater.fw_data_buf t in
    subst InItsOrder (some-injective _ s' h) (fresh-InOrder _ empty refl refl refl (inr refl))
on_open-InOrder (some file) param2 stack created s s' empty h =
    elim (Option-cases (read_fw file 0 stack.fw_data_buf)) [
      | inl e ↦ absurd (none-ne-some s' (rw e at h))
      | inr (r, e) ↦
          let InItsOrder : System → Type 0 = λ t. InOrder t.updater.fw_data_buf t in
          subst InItsOrder (some-injective _ s' (rw e at h))
            (fresh-InOrder _ empty refl refl refl (inl refl))
    ]

-- However the update goes, on any file, with any answers of the device and any turns of the two
-- threads: what was sent are the packets of commands of the image, in the image's order with none
-- left out, each of them three times at most, so three packets at most for each command begun.
pub ota_update-Sent :
    (name : List ℕ) (param2 : Option (List ℕ)) (fopen : List ℕ → Option (List ℕ)) (stack : Updater)
    (created : Bool) (sign : CharSign) (ts : List Turn) (s₀ s s' : System)
    → s₀.wire ≡ []
    → ota_start (some name) param2 fopen stack created s₀ ≡ some s
    → run sign ts s ≡ some s'
    → Sent s.updater.fw_data_buf s'
ota_update-Sent name param2 fopen stack created sign ts s₀ s s' empty h k =
    run-Sent s.updater.fw_data_buf sign ts s s'
      (on_open-InOrder (fopen name) param2 stack created s₀ s empty (unfold ota_start in h)) k
