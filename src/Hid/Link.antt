-- ===== src/Hid/Link.antt =====
-- `request_authentication` and `request_encryption` of jni/hidserv.c. Both ask the controller about
-- the link to the device, and then for one change of it.
use bt_ota_bluez_api.Common.{◌≡◌, refl, Bool, true, false, List, ◌∷◌, arith, if◌then◌else◌}
use bt_ota_bluez_api.Common.Int.{ℤ, is_negative}
use bt_ota_bluez_api.Hid.Sockets.{close}
use bt_ota_bluez_api.Hid.L2cap.{is_open, close-opened}

-- What `hci_devid`, `hci_open_dev`, `malloc`, `ioctl` and the request to the link return;
-- `minus_enomem` is `-ENOMEM`.
pub record LinkCalls : Type 0 where
  pub dev_id : ℤ
  pub dd : ℤ
  pub allocated : Bool
  pub ioctl_res : ℤ
  pub link_res : ℤ
  pub minus_enomem : ℤ

unfoldable pub request_authentication : LinkCalls → List ℤ → ℤ × List ℤ
request_authentication c fds =
    if is_negative c.dev_id
    then (c.dev_id, fds)
    else if is_negative c.dd
    then (c.dd, fds)
    else if c.allocated
    then (if is_negative c.ioctl_res
        then (c.ioctl_res, close c.dd (c.dd ∷ fds))
        else (c.link_res, close c.dd (c.dd ∷ fds)))
    else (c.minus_enomem, c.dd ∷ fds)

unfoldable pub request_encryption : LinkCalls → List ℤ → ℤ × List ℤ
request_encryption c fds =
    if is_negative c.dev_id
    then (c.dev_id, fds)
    else if is_negative c.dd
    then (c.dd, fds)
    else if c.allocated
    then (if is_negative c.ioctl_res
        then (c.ioctl_res, close c.dd (c.dd ∷ fds))
        else (c.link_res, close c.dd (c.dd ∷ fds)))
    else (c.minus_enomem, c.dd ∷ fds)

-- The first result that is an error, or the answer of the link.
abbrev pub link_result : LinkCalls → ℤ
link_result c =
    if is_negative c.dev_id
    then c.dev_id
    else if is_negative c.dd
    then c.dd
    else if c.allocated
    then (if is_negative c.ioctl_res then c.ioctl_res else c.link_res)
    else c.minus_enomem

-- The device is open and there is no memory.
abbrev pub out_of_memory : LinkCalls → Bool
out_of_memory c =
    if is_negative c.dev_id
    then false
    else if is_negative c.dd
    then false
    else if c.allocated
    then false
    else true

-- A request gives the first error, and leaves the table of descriptors as it was, unless the memory
-- runs out: then the device's descriptor is leaked. `hci_open_dev` gives a descriptor that was not
-- open.
pub request_authentication_lem :
    (c : LinkCalls) (fds : List ℤ)
    → is_open c.dd fds ≡ false
    → (request_authentication c fds
        ≡ (link_result c, (if out_of_memory c then c.dd ∷ fds else fds)))
      × (request_encryption c fds ≡ request_authentication c fds)
unfolding request_authentication request_encryption
request_authentication_lem c fds h = let e = close-opened c.dd fds h in (ground arith, refl)
