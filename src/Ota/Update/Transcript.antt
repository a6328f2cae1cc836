-- ===== src/Ota/Update/Transcript.antt =====
-- What leaves on the wire, against the commands of the image; and what holds between any two steps
-- of the machine.
use bt_ota_bluez_api.Common.{
  ℕ, zero, suc, ◌+◌, ◌*◌, ◌≤◌, ◌<◌, ◌≡◌, ◌⊎◌, List, [], ◌∷◌, arith, slice, length,
}
use bt_ota_bluez_api.Ota.Update.State.{Updater}
use bt_ota_bluez_api.Ota.Update.State.{
  Pc, send_next_cmd, retry_cmd, write_cmd, wait_response, System,
}
use bt_ota_bluez_api.Ota.Update.Command.{cmd_len_at}
use bt_ota_bluez_api.Ota.Update.Steps.{packet}

-- Where the command with number `n` stands in the image: each starts where the one before it ends.
abbrev pub offset : (ℕ → ℕ) → ℕ → ℕ
offset fw zero = 0
offset fw (suc n) = offset fw n + cmd_len_at fw (offset fw n)

-- The packet of the command with number `n`.
abbrev pub framed_cmd : (ℕ → ℕ) → ℕ → List ℕ
framed_cmd fw n = 0x52 ∷ slice fw (offset fw n) (cmd_len_at fw (offset fw n))

-- `IsTranscript fw n k w`: the first `n` commands of the image have been begun, in order, the last
-- of them has been sent `k` times, all before it once to three times, and `w` is what was sent, the
-- last packet first.
pub data IsTranscript (fw : ℕ → ℕ) : ℕ → ℕ → List (List ℕ) → Type 0 where
  nothing : IsTranscript fw zero zero []
  begun :
      {n k : ℕ} {w : List (List ℕ)}
      → IsTranscript fw n k w
      → (n ≡ 0) ⊎ (0 < k)
      → IsTranscript fw (suc n) zero w
  sent :
      {n k : ℕ} {w : List (List ℕ)}
      → IsTranscript fw (suc n) k w
      → k < 3
      → IsTranscript fw (suc n) (suc k) (framed_cmd fw n ∷ w)

-- How many packets a transcript has.
pub IsTranscript-length :
    {fw : ℕ → ℕ} {n k : ℕ} {w : List (List ℕ)}
    → IsTranscript fw n k w
    → (k ≤ 3) × (length w ≤ 3 * n) × (0 < n → length w + 3 ≤ 3 * n + k)
IsTranscript-length nothing = omega arith
IsTranscript-length (begun t h) = omega (arith, IsTranscript-length t)
IsTranscript-length (sent {n} t h) =
    let (k_le, l_le, tight) = IsTranscript-length t in let t' = tight (omega arith) in omega arith

-- The command that was begun last lies in `cmd_buf`, and has been sent `k` times.
abbrev Sending : (ℕ → ℕ) → Updater → ℕ → List (List ℕ) → ℕ → Type 0
Sending fw u total w k =
    (n : ℕ) × (total ≡ suc n) × IsTranscript fw (suc n) k w × (packet u ≡ framed_cmd fw n)

-- What holds at each place of the code, of the count of commands and of what was sent.
abbrev pub PlaceAt : (ℕ → ℕ) → Pc → Updater → ℕ → List (List ℕ) → Type 0
PlaceAt fw send_next_cmd u total w = (k : ℕ) × IsTranscript fw total k w × ((total ≡ 0) ⊎ (0 < k))
PlaceAt fw retry_cmd u total w = Sending fw u total w u.send_count
PlaceAt fw write_cmd u total w = (k : ℕ) × (u.send_count ≡ suc k) × (k < 3) × Sending fw u total w k
PlaceAt fw wait_response u total w = (0 < u.send_count) × Sending fw u total w u.send_count
PlaceAt fw _ u total w = (n : ℕ) × (k : ℕ) × (n ≤ total) × IsTranscript fw n k w

abbrev pub Place : (ℕ → ℕ) → Pc → System → Type 0
Place fw pc s = PlaceAt fw pc s.updater s.globals.total_cmd_num s.wire

-- What holds of the two threads between any two steps.
pub record InOrder (fw : ℕ → ℕ) (s : System) : Type 0 where
  pub image : s.updater.fw_data_buf ≡ fw
  pub ends :
      s.updater.current_cmd_idx + s.updater.current_cmd_len ≡ offset fw s.globals.total_cmd_num
  pub place : Place fw s.updater.pc s
