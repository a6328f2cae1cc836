-- ===== src/Jni/Session.antt =====
-- A whole session of the application: the device is connected, and the update runs to its end.
use bt_ota_bluez_api.Common.{
  ℕ, ◌≡◌, refl, ap, ◌∙◌, Bool, true, inl, inr, Bool-cases, Option, some, List, ◌∷◌, CharSign,
}
use bt_ota_bluez_api.Common.Int.{ℤ, pos}
use bt_ota_bluez_api.Hid.Sockets.{Sockets, close, quit_serv, quit_thread}
use bt_ota_bluez_api.Hid.L2cap.{Calls}
use bt_ota_bluez_api.Hid.Session.{connects, Fresh, session_leaks}
use bt_ota_bluez_api.Ota.Update.State.{returned, Updater, System}
use bt_ota_bluez_api.Ota.Update.Steps.{Turn, run}
use bt_ota_bluez_api.Ota.Update.Bounds.{channels_at}
use bt_ota_bluez_api.Ota.Update.Bounds.Turns.{ota_update-IsBounded}
use bt_ota_bluez_api.Jni.{connect_to_host, start_ota_update}

-- Stopping the thread leaves the descriptors to `quit_serv`.
quit_thread-open_fds :
    (s : Sockets) → (quit_serv (quit_thread s)).0.open_fds ≡ (quit_serv s).0.open_fds
unfolding quit_serv quit_thread
quit_thread-open_fds s = elim (Bool-cases s.thread) [ inl e ↦ rw e refl | inr e ↦ rw e refl ]

-- When the device was connected with `connectToHost` and an update that `startOTAUpdate` began has
-- returned, whatever became of it, both channels are closed, and the other descriptors of the process
-- are as they were, but that the HIDP control socket is still open and that descriptor 0 is closed, if
-- it was open. The kernel's descriptors were not open before, and nothing listens.
pub start_ota_update-connect_to_host :
    (ctl : ℤ) (control interrupt : Calls) (from : Sockets) (name : List ℕ)
    (param2 : Option (List ℕ)) (fopen : List ℕ → Option (List ℕ)) (stack : Updater) (created : Bool)
    (sign : CharSign) (ts : List Turn) (s₀ s s' : System)
    → Fresh ctl control interrupt from.open_fds
    → connects ctl control interrupt ≡ true
    → from.csg ≡ pos 0
    → from.isg ≡ pos 0
    → s₀.sockets ≡ (connect_to_host ctl control interrupt from).1
    → start_ota_update (some name) param2 fopen stack created s₀ ≡ some s
    → run sign ts s ≡ some s'
    → s'.updater.pc ≡ returned
    → s'.sockets.open_fds ≡ close (pos 0) (close (pos 0) (ctl ∷ from.open_fds))
unfolding connect_to_host start_ota_update
start_ota_update-connect_to_host ctl control interrupt from name param2 fopen stack created sign ts
      s₀ s s' fresh ok e f at h k over =
    let bounded = ota_update-IsBounded name param2 fopen stack created sign ts s₀ s s' h k in
    ap (λ (c : Sockets). c.open_fds) (bounded.channels ∙ ap (channels_at s₀.sockets) over)
    ∙ quit_thread-open_fds s₀.sockets
    ∙ ap (λ (c : Sockets). (quit_serv c).0.open_fds) at
    ∙ session_leaks ctl control interrupt from fresh ok e f
