-- ===== src/Hid/NewDevice.antt =====
-- `create_device` of jni/hidserv.c together with the functions of jni/sdp.c that it calls: the device
-- is looked up in the text files, and SDP is asked for one that is not there.
pub mod Plain
pub mod Again
use bt_ota_bluez_api.Common.{
  ℕ, Bool, true, false, ◌&&◌, not, Option, none, some, List, [], if◌then◌else◌, ◌>>=◌,
}
use bt_ota_bluez_api.Common.Int.{ℤ, pos, negsuc}
use bt_ota_bluez_api.Hid.Request.{Request, blank_request}
use bt_ota_bluez_api.Hid.Device.{Options, DeviceCalls, Effect, is_zero, create_device}
use bt_ota_bluez_api.Sdp.Stored.{TextFiles, Errors, get_stored_device_info}
use bt_ota_bluez_api.Sdp.DeviceInfo.{SdpLibrary, Service, get_sdp_device_info}

-- What the system and the library give to a call: the SDP session with its answers, the class of the
-- device, and the results of the request for authentication and of `ioctl`.
pub record Outside (lib : SdpLibrary) : Type 0 where
  pub connected : Bool
  pub search : Service → Bool × Option lib.Record
  pub sockname : Option (List ℕ)
  pub class_of_device : Option (ℕ × ℕ × ℕ)
  pub authentication : ℤ
  pub ioctl_res : ℤ
  pub boot_protocol_mode : ℕ

-- The results of the calls, with both addresses known.
abbrev pub calls_of : (lib : SdpLibrary) → Outside lib → ℤ × Request → ℤ × Request → DeviceCalls
calls_of lib w stored sdp = record {
  sockname_res = pos 0;
  peername_res = pos 0;
  stored = stored;
  sdp = sdp;
  class_of_device = w.class_of_device;
  authentication = w.authentication;
  ioctl_res = w.ioctl_res;
  boot_protocol_mode = w.boot_protocol_mode;
}

module _ (lib : SdpLibrary) (tf : TextFiles) (create_name : List ℕ → List ℕ) (errors : Errors)
    (is_any : List ℕ → Bool) where
  -- SDP is asked if the device was not found, need not be known, and SDP may be used.
  unfoldable pub ask :
      Options
      → Outside lib
      → List ℕ
      → List ℕ
      → ℤ × Request
      → tf.Files
      → Option (ℤ × (Request × tf.Files))
  ask o w src dst (err, req) files =
      if not (is_zero err) && o.nocheck && not o.nosdp
      then get_sdp_device_info lib tf create_name errors is_any src dst w.connected w.search
          w.sockname true true true req files
      else some (err, (req, files))

  -- With the addresses of the two ends of the channel, and memory for the buffers.
  unfoldable pub look_up :
      Options → Outside lib → List ℕ → List ℕ → tf.Files → Option (ℤ × (List Effect × tf.Files))
  look_up o w src dst files = do
    stored ← get_stored_device_info tf create_name errors src dst true true blank_request files
    (err, (req, files')) ← ask o w src dst stored files
    let (res, effects) = create_device o (calls_of lib w stored (err, req))
    some (res, (effects, files'))

  -- `src` and `dst` are what `getsockname` and `getpeername` tell.
  unfoldable pub create_new_device :
      Options
      → Outside lib
      → Option (List ℕ)
      → Option (List ℕ)
      → tf.Files
      → Option (ℤ × (List Effect × tf.Files))
  create_new_device o w none dst files = some (negsuc 0, ([], files))
  create_new_device o w (some src) none files = some (negsuc 0, ([], files))
  create_new_device o w (some src) (some dst) files = look_up o w src dst files
