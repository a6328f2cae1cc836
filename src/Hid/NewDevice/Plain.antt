-- ===== src/Hid/NewDevice/Plain.antt =====
-- What `create_device` does where neither encryption nor boot mode is asked for.
use bt_ota_bluez_api.Common.{
  ℕ, ◌≡◌, refl, inl, inr, true, false, ◌&&◌, some, ◌==◌, if◌then◌else◌, Bool-cases,
}
use bt_ota_bluez_api.Common.Int.{pos, is_negative}
use bt_ota_bluez_api.Hid.Request.{Request}
use bt_ota_bluez_api.Hid.Device.{
  Options, DeviceCalls, added, is_zero, submit, create, create_device,
}

-- The request with the subclass that the caller asks for, if any.
abbrev pub with_subclass : ℕ → Request → Request
with_subclass subclass req = if subclass == 0x00 then req else record req { subclass = subclass }

submit_plain :
    (o : Options) (c : DeviceCalls) (req : Request)
    → o.bootonly ≡ false
    → ((submit o c req).0 ≡ c.ioctl_res) × (added (submit o c req).1 ≡ some req)
unfolding submit
submit_plain o c req h = elim (Bool-cases ((req.vendor == 0x054c) && (req.product == 0x0268))) [
  | inl e ↦ rw (h, e) (refl, refl)
  | inr e ↦ rw (h, e) (refl, refl)
]

pub create_device_known :
    (o : Options) (c : DeviceCalls) (req : Request)
    → is_negative c.sockname_res ≡ false
    → is_negative c.peername_res ≡ false
    → o.encrypt ≡ false
    → o.bootonly ≡ false
    → c.stored ≡ (pos 0, req)
    → ((create_device o c).0 ≡ c.ioctl_res)
      × (added (create_device o c).1 ≡ some (with_subclass o.subclass req))
unfolding create_device create submit
create_device_known o c req a b plain full e =
    rw (a, b, e, plain) (submit_plain o c (with_subclass o.subclass req) full)

pub create_device_unknown :
    (o : Options) (c : DeviceCalls) (req : Request)
    → is_negative c.sockname_res ≡ false
    → is_negative c.peername_res ≡ false
    → is_zero c.stored.0 ≡ false
    → o.nocheck ≡ true
    → o.nosdp ≡ false
    → o.encrypt ≡ false
    → o.bootonly ≡ false
    → c.sdp ≡ (pos 0, req)
    → ((create_device o c).0 ≡ c.ioctl_res)
      × (added (create_device o c).1 ≡ some (with_subclass o.subclass req))
unfolding create_device create submit
create_device_unknown o c req a b unknown unchecked asks plain full e =
    rw (a, b, unknown, unchecked, asks, e, plain)
      (submit_plain o c (with_subclass o.subclass req) full)
