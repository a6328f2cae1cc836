-- ===== src/Ota/Update/Ends.antt =====
-- The two exits of `ota_update`, FLAG_OTA_FAIL and FLAG_OTA_SUCCESS.
use bt_ota_bluez_api.Common.{
  ◌≡◌, refl, ◌⊎◌, inl, inr, false, some, List, [], ◌∷◌, arith, CharSign, Bool-cases,
}
use bt_ota_bluez_api.Common.Int.{ℤ}
use bt_ota_bluez_api.Hid.Sockets.{Sockets, close, same_fd, quit_serv, quit_thread}
use bt_ota_bluez_api.Hid.L2cap.{is_open}
use bt_ota_bluez_api.Ota.Reader.{ReadResult, read_round}
use bt_ota_bluez_api.Ota.Update.State.{ota_fail, ota_success, returned, System}
use bt_ota_bluez_api.Ota.Update.Steps.{
  update_turn, reader_turn, turn, update_step, reader_step, run, leave,
}

-- A closed descriptor is not open, and stays so.
is_open-close : (fd : ℤ) (fds : List ℤ) → is_open fd (close fd fds) ≡ false
unfolding close
is_open-close fd [] = refl
is_open-close fd (x ∷ fds) = elim (Bool-cases (same_fd fd x)) [
  | inl e ↦ rw e (is_open-close fd fds)
  | inr e ↦ rw e (rw (e, is_open-close fd fds))
]

is_open-close_other :
    (fd other : ℤ) (fds : List ℤ) → is_open fd fds ≡ false → is_open fd (close other fds) ≡ false
unfolding close
is_open-close_other fd other [] h = refl
is_open-close_other fd other (x ∷ fds) h =
    let rest = is_open-close_other fd other fds in ground arith

-- None of the four descriptors is open.
abbrev pub AllClosed : Sockets → Type 0
AllClosed t =
    (is_open t.ctrl t.open_fds ≡ false)
    × (is_open t.intr t.open_fds ≡ false)
    × (is_open t.csg t.open_fds ≡ false)
    × (is_open t.isg t.open_fds ≡ false)

quit_serv-AllClosed : (t : Sockets) → AllClosed (quit_serv t).0
unfolding quit_serv
quit_serv-AllClosed t = (
  is_open-close_other t.ctrl t.isg _ (
      is_open-close_other t.ctrl t.csg _
        (is_open-close_other t.ctrl t.intr _ (is_open-close t.ctrl t.open_fds))),
  is_open-close_other t.intr t.isg _
      (is_open-close_other t.intr t.csg _ (is_open-close t.intr (close t.ctrl t.open_fds))),
  is_open-close_other t.csg t.isg _ (is_open-close t.csg (close t.intr (close t.ctrl t.open_fds))),
  is_open-close t.isg (close t.csg (close t.intr (close t.ctrl t.open_fds))),
)

-- The system when the update has returned and the reading thread has ended.
abbrev pub stopped : System → System
stopped s = record s {
  globals = record s.globals { flag_read = false };
  updater = record s.updater { pc = returned };
  reader_running = false;
  sockets = (quit_serv (quit_thread s.sockets)).0;
}

-- Once the update is at one of its exits, its next step and then one round of the reading thread that
-- starts after it, whatever `read` gives, stop both threads and leave none of the four descriptors
-- open; the two exits lead to the same system, so nothing tells a failed update from one that
-- succeeded.
pub shut_down :
    (sign : CharSign) (res : ℤ) (r : ReadResult) (s : System)
    → (s.updater.pc ≡ ota_fail) ⊎ (s.updater.pc ≡ ota_success)
    → (run sign (update_turn res ∷ reader_turn r ∷ []) s ≡ some (stopped s))
      × AllClosed (stopped s).sockets
shut_down sign res r s h = (runs r, quit_serv-AllClosed (quit_thread s.sockets))
  where
    left : update_step sign res s ≡ some (leave s)
    left = unfold update_step in elim h [ inl e ↦ rw e refl | inr e ↦ rw e refl ]

    ended : (r : ReadResult) → reader_step sign r (leave s) ≡ some (stopped s)
    ended r = unfold reader_step read_round leave in ground arith

    runs : (r : ReadResult) → run sign (update_turn res ∷ reader_turn r ∷ []) s ≡ some (stopped s)
    runs r = unfold run turn in rw (left, ended r) refl
