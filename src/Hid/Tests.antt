-- ===== src/Hid/Tests.antt =====
-- The theorems on the HID channels at concrete sessions: descriptors 0 to 2 are open at first, 3 is
-- the control socket, 4 and 5 are the channels.
use bt_ota_bluez_api.Common.{◌≡◌, refl, ◌⊎◌, inr, none, some, true, false, List, [], ◌∷◌}
use bt_ota_bluez_api.Common.Int.{ℤ, pos, negsuc, is_negative}
use bt_ota_bluez_api.Hid.Sockets.{initial_sockets, close}
use bt_ota_bluez_api.Hid.L2cap.{Calls}
use bt_ota_bluez_api.Hid.Link.{
  LinkCalls, request_authentication, request_encryption, request_authentication_lem,
}
use bt_ota_bluez_api.Hid.Connect.{reconnect, open_sock}
use bt_ota_bluez_api.Hid.Request.{Request}
use bt_ota_bluez_api.Hid.Device.{
  Options, DeviceCalls, create_device, create, submit, added, is_zero, Checked,
  create_device-Checked,
}
use bt_ota_bluez_api.Hid.Session.{reconnect_lem, open_sock_lem}

abbrev standard : List ℤ
standard = pos 0 ∷ pos 1 ∷ pos 2 ∷ []

abbrev control_calls : Calls
control_calls = record { socket_res = pos 4; bind_res = pos 0; last_res = pos 0 }

abbrev interrupt_calls : Calls
interrupt_calls = record { socket_res = pos 5; bind_res = pos 0; last_res = pos 0 }

abbrev refused_calls : Calls
refused_calls = record { socket_res = pos 5; bind_res = pos 0; last_res = negsuc 0 }

-- A stored device that is handed to the kernel in boot mode.
abbrev stored_request : Request
stored_request = record {
  parser = 0x100;
  rd_size = 2;
  rd_data = 5 ∷ 1 ∷ [];
  country = 0;
  subclass = 0x40;
  vendor = 1;
  product = 2;
  version = 3;
  flags = 0;
  name = [];
}

abbrev options : Options
options = record {
  subclass = 0xc0;
  nosdp = false;
  nocheck = false;
  bootonly = true;
  encrypt = true;
}

abbrev device_calls : DeviceCalls
device_calls = record {
  sockname_res = pos 0;
  peername_res = pos 0;
  stored = (pos 0, stored_request);
  sdp = (negsuc 0, stored_request);
  class_of_device = none;
  authentication = pos 0;
  ioctl_res = pos 7;
  boot_protocol_mode = 1;
}

abbrev submitted : Request
submitted = record stored_request { flags = 2; subclass = 0xc0; rd_size = 0 }

submitted-added : added (create_device options device_calls).1 ≡ some submitted
unfolding create_device create submit
submitted-added = refl

create_device_example :
    (is_negative (pos 0) ≡ false)
    × (is_negative (pos 0) ≡ false)
    × ((is_zero (pos 0) ≡ true) ⊎ (false ≡ true))
    × Checked options device_calls submitted (create_device options device_calls).0
create_device_example = create_device-Checked options device_calls submitted submitted-added

abbrev no_memory : LinkCalls
no_memory = record {
  dev_id = pos 0;
  dd = pos 3;
  allocated = false;
  ioctl_res = pos 0;
  link_res = pos 0;
  minus_enomem = negsuc 11;
}

request_authentication_example :
    (request_authentication no_memory standard ≡ (negsuc 11, pos 3 ∷ standard))
    × (request_encryption no_memory standard ≡ request_authentication no_memory standard)
request_authentication_example = request_authentication_lem no_memory standard refl

reconnect_example :
    reconnect (pos 3) control_calls refused_calls (initial_sockets standard)
    ≡ (pos 0, initial_sockets standard)
reconnect_example =
    reconnect_lem (pos 3) control_calls refused_calls (initial_sockets standard) (refl, refl, refl)

-- What stays open when a connected session is closed.
still_open : close (pos 0) (close (pos 0) (pos 3 ∷ standard)) ≡ pos 3 ∷ pos 1 ∷ pos 2 ∷ []
unfolding close
still_open = refl

open_sock_example :
    open_sock control_calls refused_calls (negsuc 0) (negsuc 0) (initial_sockets standard)
    ≡ (record (initial_sockets standard) {
      csg = pos 4;
      isg = negsuc 0;
      ctrl = negsuc 0;
      intr = negsuc 0;
      connection_status = pos 1;
      open_fds = standard;
    })
open_sock_example =
    open_sock_lem control_calls refused_calls (negsuc 0) (negsuc 0) (initial_sockets standard) refl
      (inr refl) (inr refl)
