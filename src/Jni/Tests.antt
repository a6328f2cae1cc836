-- ===== src/Jni/Tests.antt =====
-- A session whose firmware file cannot be opened.
use bt_ota_bluez_api.Common.{
  ℕ, ◌≡◌, refl, true, false, Option, none, some, List, [], ◌∷◌, unsigned_char,
}
use bt_ota_bluez_api.Hid.Sockets.{Sockets, initial_sockets, close, quit_serv, quit_thread}
use bt_ota_bluez_api.Hid.L2cap.{Calls, l2cap_connect}
use bt_ota_bluez_api.Hid.Connect.{reconnect, do_connect}
use bt_ota_bluez_api.Ota.Protocol.{stage_new_cmd}
use bt_ota_bluez_api.Ota.Update.State.{send_next_cmd, System}
use bt_ota_bluez_api.Ota.Update.Start.{ota_start, on_open}
use bt_ota_bluez_api.Ota.Update.Steps.{update_turn, run, turn, update_step, leave}
use bt_ota_bluez_api.Jni.{connect_to_host, start_ota_update}
use bt_ota_bluez_api.Jni.Session.{start_ota_update-connect_to_host}
use bt_ota_bluez_api.Common.Int.{pos}

abbrev control_calls : Calls
control_calls = record { socket_res = pos 4; bind_res = pos 0; last_res = pos 0 }

abbrev interrupt_calls : Calls
interrupt_calls = record { socket_res = pos 5; bind_res = pos 0; last_res = pos 0 }

abbrev name : List ℕ
name = 0x66 ∷ []

abbrev at_first : Sockets
at_first = initial_sockets (pos 0 ∷ pos 1 ∷ pos 2 ∷ [])

abbrev before : System
unfolding connect_to_host reconnect do_connect l2cap_connect close
before = record {
  globals = record {
    num1 = 0;
    num2 = 0;
    flag_read = false;
    ota_status = 0;
    ota_stage = stage_new_cmd;
    current_data_seq = 0;
    is_finish_cmd = false;
    is_verbose_log = false;
    total_cmd_num = 0;
    rsp_cmd = 0 ∷ 0 ∷ 0 ∷ 0 ∷ 0 ∷ 0 ∷ [];
  };
  updater = record {
    pc = send_next_cmd;
    fw_data_len = 0;
    remain_data_len = pos 0;
    wait_count = 0;
    send_count = 0;
    current_cmd_idx = 0;
    current_cmd_len = 0;
    fw_data_buf = λ _. 0;
    cmd_buf = λ _. 0;
    crc_res = 0;
  };
  reader_running = false;
  sockets = (connect_to_host (pos 3) control_calls interrupt_calls at_first).1;
  wire = [];
}

abbrev reached : Option System → System
reached none = before
reached (some s) = s

abbrev first : System
unfolding start_ota_update ota_start on_open before
first = reached (start_ota_update (some name) none (λ _. none) before.updater true before)

abbrev last : System
unfolding run turn update_step leave quit_serv quit_thread close first
last = reached (run unsigned_char (update_turn (pos 0) ∷ []) first)

start_ota_update_example :
    last.sockets.open_fds ≡ close (pos 0) (close (pos 0) (pos 3 ∷ at_first.open_fds))
unfolding start_ota_update ota_start on_open run turn update_step leave quit_serv quit_thread first
    last before
start_ota_update_example =
    start_ota_update-connect_to_host (pos 3) control_calls interrupt_calls at_first name none
      (λ _. none) before.updater true unsigned_char (update_turn (pos 0) ∷ []) before first last
      (refl, refl, refl) refl refl refl refl refl refl refl
