-- ===== src/Hid/Connect.antt =====
-- `do_connect`, `reconnect` and `open_sock` of jni/hidserv.c.
use bt_ota_bluez_api.Common.{none, ◌∷◌, if◌then◌else◌}
use bt_ota_bluez_api.Common.Int.{ℤ, pos, negsuc, is_negative}
use bt_ota_bluez_api.Hid.Sockets.{Sockets, close}
use bt_ota_bluez_api.Hid.L2cap.{Calls, l2cap_connect, l2cap_listen, l2cap_accept}

-- The code from the label `connect` on: the switch on `uuid`, which is a constant, always leads there.
-- `control` and `interrupt` are the calls for the two channels.
unfoldable pub do_connect : ℤ → Calls → Calls → Sockets → ℤ × Sockets
do_connect ctl control interrupt s =
    let (csk, fds) = l2cap_connect control s.open_fds in
    let (isk, fds') = l2cap_connect interrupt fds in
    if is_negative csk
    then (pos 0, record s { open_fds = close ctl fds })
    else if is_negative isk
    then (pos 0, record s { open_fds = close ctl (close csk fds') })
    else (pos 0, record s { ctrl = csk; intr = isk; connection_status = pos 1; open_fds = fds' })

-- `ctl` is what `socket` gives for HIDP.
unfoldable pub reconnect : ℤ → Calls → Calls → Sockets → ℤ × Sockets
reconnect ctl control interrupt s =
    if is_negative ctl
    then (pos 0, s)
    else do_connect ctl control interrupt (record s { open_fds = ctl ∷ s.open_fds })

-- The first half of `open_sock`: the two sockets that listen.
unfoldable pub open_listeners : Calls → Calls → Sockets → Sockets
open_listeners control interrupt s =
    let (csg, fds) = l2cap_listen control s.open_fds in
    let (isg, fds') = l2cap_listen interrupt fds in
    record s {
      csg = csg;
      isg = isg;
      open_fds = if is_negative isg then close csg fds' else fds';
      connection_status =
          if is_negative isg
          then negsuc 0
          else if is_negative csg
          then negsuc 0
          else s.connection_status;
    }

-- The second half waits for both channels; `nc` and `ni` are what `accept` gives.
unfoldable pub open_sock : Calls → Calls → ℤ → ℤ → Sockets → Sockets
open_sock control interrupt nc ni s =
    let t = open_listeners control interrupt s in
    let (ctrl, _, fds) = l2cap_accept nc tt none t.open_fds in
    let (intr, _, fds') = l2cap_accept ni tt none fds in
    record t { ctrl = ctrl; intr = intr; open_fds = fds'; connection_status = pos 1 }
