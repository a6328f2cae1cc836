-- ===== src/Hid/Device.antt =====
-- `get_device_class`, `set_device_class`, `enable_sixaxis` and `create_device` of jni/hidserv.c.
use bt_ota_bluez_api.Common.{
  ℕ, ◌^◌, ◌≡◌, ◌≢◌, refl, ◌⊎◌, bit_and, bit_or, Bool, true, false, ◌&&◌, ◌||◌, not, Option, none,
  some, List, [], ◌∷◌, arith, ◌==◌, if◌then◌else◌,
}
use bt_ota_bluez_api.Common.Int.{ℤ, pos, negsuc, is_negative}
use bt_ota_bluez_api.Hid.Request.{Request}
use bt_ota_bluez_api.Hid.Sockets.{same_fd}

-- `s` is what `hci_open_dev` gives, `res` what `hci_read_class_of_dev` returns, and `cls` what it
-- has put into the array; `none` is the null pointer. The device is never closed.
unfoldable pub get_device_class : ℤ → ℤ → List ℕ → List ℤ → Option (List ℕ) × List ℤ
get_device_class s res cls fds =
    if is_negative s
    then (none, fds)
    else if is_negative res
    then (none, s ∷ fds)
    else (some cls, s ∷ fds)

-- The same of the request to write the class. The result of `hci_write_class_of_dev` is only logged.
unfoldable pub set_device_class : ℤ → List ℤ → List ℤ
set_device_class s fds = if is_negative s then fds else s ∷ fds

-- The report that switches a sixaxis controller on.
abbrev pub sixaxis_report : List ℕ
sixaxis_report = 0x53 ∷ 0xf4 ∷ 0x42 ∷ 0x03 ∷ 0x00 ∷ 0x00 ∷ []

-- The flags of the call.
pub record Options : Type 0 where
  pub subclass : ℕ
  pub nosdp : Bool
  pub nocheck : Bool
  pub bootonly : Bool
  pub encrypt : Bool

-- What the calls give: `getsockname`, `getpeername`, `get_stored_device_info` and
-- `get_sdp_device_info` with the request that they have filled, the class from `getsockopt`, the
-- request for authentication, and `ioctl`. The result of the one for encryption is only logged.
pub record DeviceCalls : Type 0 where
  pub sockname_res : ℤ
  pub peername_res : ℤ
  pub stored : ℤ × Request
  pub sdp : ℤ × Request
  pub class_of_device : Option (ℕ × ℕ × ℕ)
  pub authentication : ℤ
  pub ioctl_res : ℤ
  pub boot_protocol_mode : ℕ

abbrev pub is_zero : ℤ → Bool
is_zero a = same_fd a (pos 0)

-- Without SDP, the subclass is the one of a peripheral's class of device.
abbrev pub subclass_of : Option (ℕ × ℕ × ℕ) → ℕ
subclass_of none = 0xc0
subclass_of (some (c0, c1, c2)) =
    if (c1 == 0x25) && ((c2 == 0x00) || (c2 == 0x01)) then c0 else 0xc0

-- What the function does to the outside, besides its result.
pub data Effect : Type 0 where
  wrote_report : List ℕ → Effect
  connadd : Request → Effect

-- From `bootonly` on.
unfoldable pub submit : Options → DeviceCalls → Request → ℤ × List Effect
submit o c req =
    let booted : Request =
      if o.bootonly
      then record req { rd_size = 0; flags = bit_or req.flags (2 ^ c.boot_protocol_mode) }
      else req in
    (
      c.ioctl_res,
      if (booted.vendor == 0x054c) && (booted.product == 0x0268)
          then wrote_report sixaxis_report ∷ connadd booted ∷ []
          else connadd booted ∷ [],
    )

-- From the label `create` on.
unfoldable pub create : Options → DeviceCalls → Request → ℤ × List Effect
create o c req =
    let chosen : Request =
      if o.subclass == 0x00 then req else record req { subclass = o.subclass } in
    if o.encrypt && not (bit_and chosen.subclass 0x40 == 0)
    then (if is_negative c.authentication then (c.authentication, []) else submit o c chosen)
    else submit o c chosen

unfoldable pub create_device : Options → DeviceCalls → ℤ × List Effect
create_device o c =
    if is_negative c.sockname_res
    then (negsuc 0, [])
    else if is_negative c.peername_res
    then (negsuc 0, [])
    else if is_zero c.stored.0
    then create o c c.stored.1
    else if o.nocheck
    then (if o.nosdp
        then create o c (record c.stored.1 { subclass = subclass_of c.class_of_device })
        else if is_negative c.sdp.0
        then (c.sdp.0, [])
        else create o c c.sdp.1)
    else (pos 0, [])

-- The request that is handed to the kernel.
abbrev pub added : List Effect → Option Request
added [] = none
added (wrote_report _ ∷ es) = added es
added (connadd req ∷ es) = some req

-- What holds of a request that is handed over from `create` on.
abbrev pub Checked : Options → DeviceCalls → Request → ℤ → Type 0
Checked o c req err =
    (err ≡ c.ioctl_res)
    × (o.subclass ≢ 0 → req.subclass ≡ o.subclass)
    × (o.bootonly ≡ true → req.rd_size ≡ 0)
    × (o.encrypt ≡ true → bit_and req.subclass 0x40 ≢ 0 → is_negative c.authentication ≡ false)

submit-Checked :
    (o : Options) (c : DeviceCalls) (chosen req : Request)
    → (o.subclass ≢ 0 → chosen.subclass ≡ o.subclass)
    → added (submit o c chosen).1 ≡ some req
    → (req.subclass ≡ chosen.subclass)
      × ((submit o c chosen).0 ≡ c.ioctl_res)
      × (o.bootonly ≡ true → req.rd_size ≡ 0)
unfolding submit
submit-Checked o c chosen req s h = (ground arith, refl, ground arith)

create-Checked :
    (o : Options) (c : DeviceCalls) (given req : Request)
    → added (create o c given).1 ≡ some req
    → Checked o c req (create o c given).0
unfolding create
create-Checked o c given req h = ground (
  arith,
  submit-Checked o c given req,
  submit-Checked o c (record given { subclass = o.subclass }) req,
)

-- A device is handed to the kernel only if both its addresses are known and it was stored before or
-- need not be checked; then the result is the kernel's, the subclass is the caller's, if one was
-- given, in boot mode the report descriptor is left out, and a device of a subclass that wants
-- encryption was authenticated, if encryption was asked for.
pub create_device-Checked :
    (o : Options) (c : DeviceCalls) (req : Request)
    → added (create_device o c).1 ≡ some req
    → (is_negative c.sockname_res ≡ false)
      × (is_negative c.peername_res ≡ false)
      × ((is_zero c.stored.0 ≡ true) ⊎ (o.nocheck ≡ true))
      × Checked o c req (create_device o c).0
unfolding create_device
create_device-Checked o c req h = ground (
  arith,
  create-Checked o c c.stored.1 req,
  create-Checked o c (record c.stored.1 { subclass = subclass_of c.class_of_device }) req,
  create-Checked o c c.sdp.1 req,
)
