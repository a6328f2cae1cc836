-- ===== src/Ota/Update/Packets.antt =====
-- The packets leave in the order of the image, each of them three times at most.
use bt_ota_bluez_api.Common.{ℕ, ◌*◌, ◌≤◌, ◌≡◌, some, List, arith, length, CharSign}
use bt_ota_bluez_api.Ota.Update.State.{
  Pc, send_next_cmd, retry_cmd, write_cmd, wait_response, ota_fail, ota_success, returned, System,
}
use bt_ota_bluez_api.Ota.Update.Steps.{Turn, run}
use bt_ota_bluez_api.Ota.Update.Transcript.{IsTranscript, IsTranscript-length, Place, InOrder}
use bt_ota_bluez_api.Ota.Update.Order.{run-InOrder}

-- What was sent in any run from the first command on, whatever the device answers and the two
-- threads' turns: the packets of commands of the image, in the image's order with none left out,
-- each of them three times at most.
abbrev pub Sent : (ℕ → ℕ) → System → Type 0
Sent fw s =
    (n : ℕ) × (k : ℕ) × (n ≤ s.globals.total_cmd_num)
    × (k ≤ 3)
    × IsTranscript fw n k s.wire
    × (length s.wire ≤ 3 * n)

Sent-of_transcript :
    {fw : ℕ → ℕ} {n k : ℕ} (s : System)
    → n ≤ s.globals.total_cmd_num
    → IsTranscript fw n k s.wire
    → Sent fw s
Sent-of_transcript {n} {k} s le t =
    let (few, long, _) = IsTranscript-length t in (n, k, le, few, t, long)

pub Place-Sent : {fw : ℕ → ℕ} (pc : Pc) (s : System) → Place fw pc s → Sent fw s
Place-Sent send_next_cmd s (k, t, _) = Sent-of_transcript s (omega arith) t
Place-Sent retry_cmd s (n, e, t, _) = Sent-of_transcript s (omega arith) t
Place-Sent write_cmd s (k, _, _, (n, e, t, _)) = Sent-of_transcript s (omega arith) t
Place-Sent wait_response s (_, (n, e, t, _)) = Sent-of_transcript s (omega arith) t
Place-Sent ota_fail s (n, k, le, t) = Sent-of_transcript s le t
Place-Sent ota_success s (n, k, le, t) = Sent-of_transcript s le t
Place-Sent returned s (n, k, le, t) = Sent-of_transcript s le t

-- A run from the first command on, of a machine in order, sends commands in order.
pub run-Sent :
    (fw : ℕ → ℕ) (sign : CharSign) (ts : List Turn) (s s' : System)
    → InOrder fw s
    → run sign ts s ≡ some s'
    → Sent fw s'
run-Sent fw sign ts s s' h k = Place-Sent s'.updater.pc s' (run-InOrder fw sign ts s s' h k).place
