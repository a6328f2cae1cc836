-- ===== src/Jni.antt =====
-- The entry points of jni/androhid.c that the Java class OtaLoadJNI calls.
pub mod Session
pub mod Tests
use bt_ota_bluez_api.Common.{
  ℕ, ◌≡◌, refl, ap, inl, inr, Bool, true, false, Option, none, some, List, [], ◌∷◌, arith,
  if◌then◌else◌, Bool-cases,
}
use bt_ota_bluez_api.Common.Int.{ℤ, pos, negsuc, is_negative}
use bt_ota_bluez_api.Hid.Sockets.{Sockets, initial_sockets, close, quit_serv, quit_thread}
use bt_ota_bluez_api.Hid.L2cap.{Calls, is_open, close-opened, close-fresh}
use bt_ota_bluez_api.Hid.Connect.{reconnect}
use bt_ota_bluez_api.Ota.Update.State.{Updater, System}
use bt_ota_bluez_api.Ota.Update.Start.{ota_start}
use bt_ota_bluez_api.Hid.Session.{connects, Fresh, reconnect_lem}

-- `route` is what `hci_get_route` returns. `init_server` does nothing, its body being commented out.
unfoldable pub setup_client_socket : ℤ → ℤ
setup_client_socket route = if is_negative route then negsuc 0 else pos 0

unfoldable pub connect_to_host : ℤ → Calls → Calls → Sockets → ℤ × Sockets
connect_to_host ctl control interrupt s = reconnect ctl control interrupt s

unfoldable pub deconnect_client : Sockets → ℤ × Sockets
deconnect_client s = (pos 0, (quit_serv (quit_thread s)).0)

unfoldable pub is_enabled : ℤ → Bool
is_enabled route = if is_negative route then false else true

-- The two strings are passed on; `none` is one that JNI could not give. From the first command on
-- the update is a run of the machine.
unfoldable pub start_ota_update :
    Option (List ℕ)
    → Option (List ℕ)
    → (List ℕ → Option (List ℕ))
    → Updater
    → Bool
    → System
    → Option System
start_ota_update fw_file_path is_verbose_log fopen stack created s =
    ota_start fw_file_path is_verbose_log fopen stack created s

-- `num_rsp` is what `hci_inquiry` returns, and `ii` the devices that it has found. An array of a
-- negative size cannot be made.
unfoldable pub set_elements : {A : Type 0} → (A → List ℕ) → List A → List (List ℕ)
set_elements ba2str [] = []
set_elements ba2str (i ∷ ii) = ba2str i ∷ set_elements ba2str ii

unfoldable pub bt_device_scan : {A : Type 0} → (A → List ℕ) → ℤ → List A → Option (List (List ℕ))
bt_device_scan ba2str num_rsp ii =
    if is_negative num_rsp then none else some (set_elements ba2str ii)

-- `"[unknown]"`.
abbrev pub unknown : List ℕ
unknown = b'[' ∷ b'u' ∷ b'n' ∷ b'k' ∷ b'n' ∷ b'o' ∷ b'w' ∷ b'n' ∷ b']' ∷ []

-- `res` is what `hci_read_remote_name` returns, and `name` what it has put into the buffer.
unfoldable pub bt_device_get_name : ℤ → ℤ → ℤ → List ℕ → List ℤ → List ℕ × List ℤ
bt_device_get_name dev_id sock res name fds =
    let fds' = if is_negative sock then fds else sock ∷ fds in
    if is_negative dev_id
    then (unknown, close sock fds')
    else if is_negative sock
    then (unknown, close sock fds')
    else (if is_negative res then unknown else name, close sock fds')

-- The name of a device is the one that the controller gives, or `[unknown]` if any of the calls
-- fails, and the table of descriptors is as it was. `hci_open_dev` fails with a number that is not
-- open, or gives one that was not open.
pub bt_device_get_name_lem :
    (dev_id sock res : ℤ) (name : List ℕ) (fds : List ℤ)
    → is_open sock fds ≡ false
    → bt_device_get_name dev_id sock res name fds ≡ (
      if is_negative dev_id
          then unknown
          else if is_negative sock
          then unknown
          else if is_negative res
          then unknown
          else name,
      fds,
    )
unfolding bt_device_get_name
bt_device_get_name_lem dev_id sock res name fds h =
    let opened = close-opened sock fds h in let fresh = close-fresh sock fds h in ground arith
