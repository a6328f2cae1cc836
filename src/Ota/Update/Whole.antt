-- ===== src/Ota/Update/Whole.antt =====
-- A whole update: the rounds of a device that takes every command, and where they stand.
use bt_ota_bluez_api.Common.{
  ℕ, zero, suc, ◌+◌, ◌≤◌, ◌<◌, ◌≡◌, ◌⊎◌, true, false, List, [], ◌∷◌, ◌++◌, ltb, if◌then◌else◌,
}
use bt_ota_bluez_api.Common.Int.{pos}
use bt_ota_bluez_api.Ota.Protocol.{start_cmd_code, data_cmd_code, finish_cmd_code, success}
use bt_ota_bluez_api.Ota.Reader.{read_bytes, buf_at}
use bt_ota_bluez_api.Ota.Update.State.{send_next_cmd, fw_data_buf_size, System}
use bt_ota_bluez_api.Ota.Update.Command.{cmd_len_at}
use bt_ota_bluez_api.Ota.Update.Transcript.{offset, framed_cmd}
use bt_ota_bluez_api.Ota.Update.Steps.{Turn, update_turn, reader_turn}

-- The turns that a command and the response to it take; `write` returns `w`.
abbrev pub round : ℕ → List ℕ → List Turn
round w bytes =
    update_turn (pos w)
    ∷ update_turn (pos w)
    ∷ update_turn (pos w)
    ∷ reader_turn (read_bytes bytes)
    ∷ update_turn (pos w)
    ∷ []

-- The rounds of the responses, one after the other.
abbrev pub rounds : ℕ → List (List ℕ) → List Turn
rounds w [] = []
rounds w (bytes ∷ rest) = round w bytes ++ rounds w rest

-- The byte at index `k` of the command with number `n`; zero past its end.
abbrev pub byte_of : (ℕ → ℕ) → ℕ → ℕ → ℕ
byte_of fw n k = if ltb k (cmd_len_at fw (offset fw n)) then fw (offset fw n + k) else 0

-- The response takes the command with number `n`: it is one to a start command, or one to a data
-- command with the command's number.
abbrev pub TakesAt : (ℕ → ℕ) → ℕ → List ℕ → Type 0
TakesAt fw n bytes =
    (buf_at bytes 1 ≡ 2)
    × (buf_at bytes 6 ≡ success)
    × ((buf_at bytes 3 ≡ start_cmd_code)
        ⊎ ((buf_at bytes 3 ≡ data_cmd_code)
            × (byte_of fw n 4 ≡ data_cmd_code)
            × (buf_at bytes 4 ≡ byte_of fw n 5)
            × (buf_at bytes 5 ≡ byte_of fw n 6)))

-- The response to the finish command.
abbrev pub Finishes : List ℕ → Type 0
Finishes bytes =
    (buf_at bytes 1 ≡ 2) × (buf_at bytes 3 ≡ finish_cmd_code) × (buf_at bytes 6 ≡ success)

-- Each response takes the command whose turn it is, from the one with number `n` on.
abbrev pub AllTake : (ℕ → ℕ) → ℕ → List (List ℕ) → Type 0
AllTake fw n [] = Unit
AllTake fw n (bytes ∷ rest) = TakesAt fw n bytes × AllTake fw (suc n) rest

-- The packets of the first `n` commands, the last one first.
abbrev pub packets : (ℕ → ℕ) → ℕ → List (List ℕ)
packets fw zero = []
packets fw (suc n) = framed_cmd fw n ∷ packets fw n

-- The command with number `n` fits the arrays.
abbrev pub FitsAt : (ℕ → ℕ) → ℕ → Type 0
FitsAt fw n =
    (offset fw n + 2 < fw_data_buf_size)
    × (offset fw (suc n) ≤ fw_data_buf_size)
    × (cmd_len_at fw (offset fw n) ≤ 1021)

-- The update stands before the command with number `n`: all before it were sent once.
pub record Before (fw : ℕ → ℕ) (n : ℕ) (s : System) : Type 0 where
  pub at_next : s.updater.pc ≡ send_next_cmd
  pub listens : (s.reader_running ≡ true) × (s.globals.flag_read ≡ true)
  pub quiet : s.globals.is_verbose_log ≡ false
  pub image : s.updater.fw_data_buf ≡ fw
  pub place : s.updater.current_cmd_idx + s.updater.current_cmd_len ≡ offset fw n
  pub not_empty : 0 < s.updater.fw_data_len
  pub counts : (s.globals.num1 ≤ n) × (s.globals.total_cmd_num ≡ n)
  pub wired : s.wire ≡ packets fw n

-- All commands from number `n` to number `n + length answers` fit.
abbrev pub AllFit : (ℕ → ℕ) → ℕ → ℕ → Type 0
AllFit fw n last = (k : ℕ) → n ≤ k → k < last → FitsAt fw k
