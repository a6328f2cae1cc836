-- ===== src/Hid/Session.antt =====
-- What a session leaves behind: opening and closing, put together.
use bt_ota_bluez_api.Common.{
  ◌≡◌, refl, ◌⊎◌, inl, inr, Bool-cases, Bool, true, false, List, ◌∷◌, arith, if◌then◌else◌,
}
use bt_ota_bluez_api.Common.Int.{ℤ, pos, negsuc, is_negative}
use bt_ota_bluez_api.Hid.Sockets.{Sockets, close, quit_serv, same_fd}
use bt_ota_bluez_api.Hid.L2cap.{
  Calls, succeed, is_open, l2cap_connect_lem, l2cap_listen, l2cap_listen_lem, l2cap_accept,
  close-opened, close-fresh,
}
use bt_ota_bluez_api.Hid.Connect.{do_connect, reconnect, open_sock, open_listeners}

-- All calls of `reconnect` go well.
abbrev pub connects : ℤ → Calls → Calls → Bool
connects ctl control interrupt =
    if is_negative ctl then false else if succeed control then succeed interrupt else false

-- The descriptors that the kernel gives are open neither before nor twice.
abbrev pub Fresh : ℤ → Calls → Calls → List ℤ → Type 0
Fresh ctl control interrupt fds =
    (is_open ctl fds ≡ false)
    × (is_open control.socket_res (ctl ∷ fds) ≡ false)
    × (is_open interrupt.socket_res (control.socket_res ∷ ctl ∷ fds) ≡ false)

-- The session that a successful `reconnect` sets up.
abbrev pub connected : ℤ → Calls → Calls → Sockets → Sockets
connected ctl control interrupt s = record s {
  ctrl = control.socket_res;
  intr = interrupt.socket_res;
  connection_status = pos 1;
  open_fds = interrupt.socket_res ∷ control.socket_res ∷ ctl ∷ s.open_fds;
}

-- `reconnect` returns 0 whether it succeeds or not. If all its calls go well, both channels and the
-- control socket are open and the status is 1; if one of them fails, everything is as it was before,
-- the status included. The descriptors that the kernel gives were not open.
pub reconnect_lem :
    (ctl : ℤ) (control interrupt : Calls) (s : Sockets)
    → Fresh ctl control interrupt s.open_fds
    → reconnect ctl control interrupt s
      ≡ (pos 0, if connects ctl control interrupt then connected ctl control interrupt s else s)
unfolding reconnect do_connect
reconnect_lem ctl control interrupt s (a, b, c) = ground (
  arith,
  l2cap_connect_lem control (ctl ∷ s.open_fds) b,
  l2cap_connect_lem interrupt (control.socket_res ∷ ctl ∷ s.open_fds) c,
  close-opened ctl s.open_fds a,
  close-opened control.socket_res (ctl ∷ s.open_fds) b,
)

quit_serv-two :
    (a b : ℤ) (fds : List ℤ)
    → is_open a fds ≡ false
    → is_open b (a ∷ fds) ≡ false
    → close b (close a (b ∷ a ∷ fds)) ≡ fds
unfolding close
quit_serv-two a b fds h k =
    let other : same_fd a b ≡ false = ground arith in
    rw (other, close-opened a fds h) (close-opened b fds (ground arith))

-- Where nothing listens, a session that was opened by a `reconnect` that succeeded and closed by
-- `quit_serv` leaves the HIDP control socket open and closes descriptor 0 of the process, if it was
-- open; the other descriptors are as they were before.
pub session_leaks :
    (ctl : ℤ) (control interrupt : Calls) (s : Sockets)
    → Fresh ctl control interrupt s.open_fds
    → connects ctl control interrupt ≡ true
    → s.csg ≡ pos 0
    → s.isg ≡ pos 0
    → (quit_serv (reconnect ctl control interrupt s).1).0.open_fds
      ≡ close (pos 0) (close (pos 0) (ctl ∷ s.open_fds))
unfolding quit_serv
session_leaks ctl control interrupt s (a, b, c) ok e f = rw (
  reconnect_lem ctl control interrupt s (a, b, c),
  ok,
  e,
  f,
  quit_serv-two control.socket_res interrupt.socket_res (ctl ∷ s.open_fds) b c,
)

-- The call of `socket` fails, or gives a number that is not open.
abbrev pub GivesNew : Calls → List ℤ → Type 0
GivesNew c fds = (is_negative c.socket_res ≡ true) ⊎ (is_open c.socket_res fds ≡ false)

listens :
    (c : Calls) (fds : List ℤ)
    → GivesNew c fds
    → l2cap_listen c fds
      ≡ (if succeed c then (c.socket_res, c.socket_res ∷ fds) else (negsuc 0, fds))
unfolding l2cap_listen
listens c fds (inl bad) = rw bad refl
listens c fds (inr new) = l2cap_listen_lem c fds new

-- A listening socket is closed again without a trace.
closes_listener :
    (c : Calls) (fds : List ℤ)
    → succeed c ≡ true
    → GivesNew c fds
    → close c.socket_res (c.socket_res ∷ fds) ≡ fds
closes_listener c fds ok (inl bad) = absurd (ground arith)
closes_listener c fds ok (inr new) = close-opened c.socket_res fds new

-- What `l2cap_listen` gives, and what `accept` adds to the table.
abbrev pub fd_of : Calls → ℤ
fd_of c = if succeed c then c.socket_res else negsuc 0

abbrev pub accepted : ℤ → List ℤ → List ℤ
accepted n fds = if is_negative n then fds else n ∷ fds

abbrev pub listening : Calls → Calls → List ℤ → List ℤ
listening control interrupt fds =
    if succeed interrupt
    then interrupt.socket_res ∷ (if succeed control then control.socket_res ∷ fds else fds)
    else fds

-- `open_sock` sets the status to 1 whatever fails. A listening socket that fails is -1, and a channel
-- that is not accepted is -1; if the second listening socket fails, the first is closed, and its
-- number is kept. What is open afterwards are the listening sockets, if the second did not fail, and
-- the channels that were accepted. No open descriptor is negative, and each call of `socket` fails or
-- gives a number that is not open when it is made.
pub open_sock_lem :
    (control interrupt : Calls) (nc ni : ℤ) (s : Sockets)
    → is_open (negsuc 0) s.open_fds ≡ false
    → GivesNew control s.open_fds
    → GivesNew interrupt (if succeed control then control.socket_res ∷ s.open_fds else s.open_fds)
    → open_sock control interrupt nc ni s ≡ (record s {
      csg = fd_of control;
      isg = fd_of interrupt;
      ctrl = if is_negative nc then negsuc 0 else nc;
      intr = if is_negative ni then negsuc 0 else ni;
      connection_status = pos 1;
      open_fds = accepted ni (accepted nc (listening control interrupt s.open_fds));
    })
unfolding open_sock l2cap_accept open_listeners
open_sock_lem control interrupt nc ni s m a b = elim (Bool-cases (succeed control)) [
  | inl ok ↦
      let listens_then = listens interrupt (control.socket_res ∷ s.open_fds) (rw ok at b) in
      let closed = closes_listener control s.open_fds ok a in
      ground (arith, listens control s.open_fds a, listens_then, closed)
  | inr bad ↦
      let listens_then = listens interrupt s.open_fds (rw bad at b) in
      ground
        (arith, listens control s.open_fds a, listens_then, close-fresh (negsuc 0) s.open_fds m)
]
