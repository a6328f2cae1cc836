-- ===== src/Sdp/Tests/Asked/Connected.antt =====
-- A device of which SDP tells, and its next connection, when SDP no longer answers and unknown devices
-- are rejected.
use bt_ota_bluez_api.Common.{refl, true, false, none, [], arith}
use bt_ota_bluez_api.Common.Int.{pos}
use bt_ota_bluez_api.Common.Scan.{skip_space}
use bt_ota_bluez_api.Hid.Device.{Options}
use bt_ota_bluez_api.Hid.NewDevice.{Outside}
use bt_ota_bluez_api.Hid.NewDevice.Again.{Adds, create_new_device_again}
use bt_ota_bluez_api.Sdp.Tests.{entries, errors, create_name, here, there, look_up}
use bt_ota_bluez_api.Sdp.Tests.Asked.{library, search, known, asked, request_of, files_of, answers}

abbrev open_to_all : Options
open_to_all = record {
  subclass = 0;
  nosdp = false;
  nocheck = true;
  bootonly = false;
  encrypt = false;
}

abbrev known_only : Options
known_only = record {
  subclass = 0;
  nosdp = false;
  nocheck = false;
  bootonly = false;
  encrypt = false;
}

abbrev first_time : Outside library
first_time = record {
  connected = true;
  search = search;
  sockname = none;
  class_of_device = none;
  authentication = pos 0;
  ioctl_res = pos 0;
  boot_protocol_mode = 1;
}

abbrev next_time : Outside library
next_time = record first_time { connected = false }

create_new_device_again_example :
    Adds library entries create_name errors known here there open_to_all first_time
      (request_of asked)
      []
      (files_of asked)
    × Adds library entries create_name errors known here there known_only next_time
        (request_of asked)
        (files_of asked)
        (files_of asked)
unfolding asked skip_space look_up
create_new_device_again_example =
    create_new_device_again library entries create_name errors known here there open_to_all
      known_only first_time next_time (request_of asked) [] (files_of asked)
      (λ file key value files. refl) refl refl refl refl answers (omega arith) (omega arith)
      (refl, (refl, tt)) refl (refl, refl, refl, refl) (refl, refl)
