-- ===== src/Ota/Update/Late/Safe.antt =====
-- What is safe in every interleaving of the two threads, also within a round of the reading thread.
use bt_ota_bluez_api.Common.{ℕ, ◌≡◌, Bool, Option, none, some, List, [], CharSign}
use bt_ota_bluez_api.Hid.Sockets.{Sockets}
use bt_ota_bluez_api.Ota.Update.State.{Updater, System}
use bt_ota_bluez_api.Ota.Update.Start.{ota_start}
use bt_ota_bluez_api.Ota.Update.Packets.{Sent, Place-Sent}
use bt_ota_bluez_api.Ota.Update.Transcript.{InOrder}
use bt_ota_bluez_api.Ota.Update.Order.{frame-InOrder, turn-InOrder}
use bt_ota_bluez_api.Ota.Update.Wire.{on_open-InOrder}
use bt_ota_bluez_api.Ota.Update.Late.Machine.{Moment, Threads, moments}
use bt_ota_bluez_api.Ota.Update.Late.Keeps.{moments_keeps}

-- However the update goes, on any file, with any answers of the device and any interleaving of the
-- two threads, the rounds of the reading thread being interrupted where `OTAStage` is assigned: what
-- was sent are the packets of commands of the image, in the image's order with none left out, each of
-- them three times at most, so three packets at most for each command begun.
pub ota_update_interrupted-Sent :
    (name : List ℕ) (param2 : Option (List ℕ)) (fopen : List ℕ → Option (List ℕ)) (stack : Updater)
    (created : Bool) (sign : CharSign) (nows : List Moment) (s₀ s : System) (t : Threads)
    → s₀.wire ≡ []
    → ota_start (some name) param2 fopen stack created s₀ ≡ some s
    → moments sign nows (s, none) ≡ some t
    → Sent s.updater.fw_data_buf t.0
ota_update_interrupted-Sent name param2 fopen stack created sign nows s₀ s t empty h k =
    let fw = s.updater.fw_data_buf in
    let order =
      moments_keeps (InOrder fw) sign (turn-InOrder fw sign)
        (λ s s' same. frame-InOrder fw sign s s' same.updater same.wire same.total) nows (s, none) t
        (on_open-InOrder (fopen name) param2 stack created s₀ s empty (unfold ota_start in h)) k in
    Place-Sent t.0.updater.pc t.0 order.place
