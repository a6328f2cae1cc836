-- ===== src/Ota/Update/Bounds/Turns.antt =====
-- Every turn keeps the bounds.
use mathlib.Core.Path.{subst}
use mathlib.Core.Option.{none-ne-some, some-injective}
use bt_ota_bluez_api.Common.{
  ℕ, ◌≡◌, refl, sym, ◌∙◌, ap, inl, inr, Bool, false, Option, none, some, List, arith, CharSign,
  Option-cases,
}
use bt_ota_bluez_api.Hid.Sockets.{Sockets}
use bt_ota_bluez_api.Ota.Reader.{ReadResult, read_round, on_read, on_response}
use bt_ota_bluez_api.Ota.Update.State.{Pc, returned, Updater, System}
use bt_ota_bluez_api.Ota.Update.Steps.{
  update_step, reader_step, Turn, update_turn, reader_turn, turn, run,
}
use bt_ota_bluez_api.Ota.Update.Start.{ota_start, on_open, read_fw}
use bt_ota_bluez_api.Ota.Update.Keeps.{run_keeps}
use bt_ota_bluez_api.Ota.Update.Bounds.{
  SendsAt, WaitsAt, channels_at, ListensAt, PlaceOk, IsBounded,
}
use bt_ota_bluez_api.Ota.Update.Bounds.Steps.{dispatch-IsBounded}

reader_step-Bounds :
    (sign : CharSign) (r : ReadResult) (s : System) {s' : System}
    → reader_step sign r s ≡ some s'
    → (s'.updater ≡ s.updater)
      × (s'.sockets ≡ s.sockets)
      × (s.globals.flag_read ≡ false → s'.globals.flag_read ≡ false)
      × (s'.globals.num1 ≡ s.globals.num1)
      × (s'.globals.num2 ≡ s.globals.num2)
      × (s'.globals.total_cmd_num ≡ s.globals.total_cmd_num)
unfolding reader_step read_round on_read on_response
reader_step-Bounds sign r s h = ground arith

pub still_listens :
    (pc : Pc) (before after : Bool)
    → (before ≡ false → after ≡ false)
    → ListensAt pc before
    → ListensAt pc after
still_listens returned before after h k = h k
still_listens _ before after h k = tt

module _ (from : Sockets) (sign : CharSign) where
  reader-IsBounded :
      (r : ReadResult) (s s' : System)
      → IsBounded from s
      → reader_step sign r s ≡ some s'
      → IsBounded from s'
  reader-IsBounded r s s' h k =
      let (eu, es, flag, e₁, e₂, e₃) = reader_step-Bounds sign r s {s' = s'} k in
      record {
        sends = subst (λ (u : Updater). SendsAt u.pc u.send_count) (sym eu) h.sends;
        waits = subst (λ (u : Updater). WaitsAt u.pc u.wait_count) (sym eu) h.waits;
        progress =
            (omega (arith, h.progress), omega (arith, h.progress), omega (arith, h.progress));
        place = subst PlaceOk (sym eu) h.place;
        listens =
            subst (λ (u : Updater). ListensAt u.pc s'.globals.flag_read) (sym eu)
              (still_listens s.updater.pc s.globals.flag_read s'.globals.flag_read flag h.listens);
        channels = es ∙ h.channels ∙ ap (λ (u : Updater). channels_at from u.pc) (sym eu);
      }

  -- Every turn of either thread keeps the bounds.
  pub turn-IsBounded :
      (t : Turn) (s s' : System) → IsBounded from s → turn sign t s ≡ some s' → IsBounded from s'
  unfolding turn
  turn-IsBounded (update_turn res) s s' h k =
      dispatch-IsBounded from sign s.updater.pc res s s' refl h (unfold update_step in k)
  turn-IsBounded (reader_turn r) s s' h k = reader-IsBounded r s s' h k

-- What `ota_update` sets up is in bounds.
pub on_open-IsBounded :
    (file : Option (List ℕ)) (param2 : Option (List ℕ)) (stack : Updater) (created : Bool)
    (s s' : System)
    → on_open file param2 stack created s ≡ some s'
    → IsBounded s.sockets s'
unfolding on_open
on_open-IsBounded none param2 stack created s s' h =
    subst (IsBounded s.sockets) (some-injective _ s' h) (record {
      sends = omega arith;
      waits = omega arith;
      progress = (omega arith, omega arith, omega arith);
      place = (omega arith, omega arith);
      listens = tt;
      channels = refl;
    })
on_open-IsBounded (some file) param2 stack created s s' h =
    elim (Option-cases (read_fw file 0 stack.fw_data_buf)) [
      | inl e ↦ absurd (none-ne-some s' (rw e at h))
      | inr (r, e) ↦ subst (IsBounded s.sockets) (some-injective _ s' (rw e at h)) (record {
        sends = omega arith;
        waits = omega arith;
        progress = (omega arith, omega arith, omega arith);
        place = (omega arith, omega arith);
        listens = tt;
        channels = refl;
      })
    ]

-- At every moment of an update, on any file, with any answers of the device and any turns of the two
-- threads: a command was sent three times at most and is waited for in fewer than 750 rounds; the
-- current command lies in the image's array and has 1021 bytes at most; the progress is 100 at most
-- and no more than the data commands, and these are no more than the commands; the channels are as they were at the start
-- until the update returns, and closed then, when `flagRead` is cleared.
pub ota_update-IsBounded :
    (name : List ℕ) (param2 : Option (List ℕ)) (fopen : List ℕ → Option (List ℕ)) (stack : Updater)
    (created : Bool) (sign : CharSign) (ts : List Turn) (s₀ s s' : System)
    → ota_start (some name) param2 fopen stack created s₀ ≡ some s
    → run sign ts s ≡ some s'
    → IsBounded s₀.sockets s'
ota_update-IsBounded name param2 fopen stack created sign ts s₀ s s' h k =
    run_keeps (IsBounded s₀.sockets) sign (turn-IsBounded s₀.sockets sign) ts s s'
      (on_open-IsBounded (fopen name) param2 stack created s₀ s (unfold ota_start in h)) k
