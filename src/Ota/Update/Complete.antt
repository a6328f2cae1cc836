-- ===== src/Ota/Update/Complete.antt =====
-- The whole of `ota_update` with a device that takes every command.
use mathlib.Core.Path.{subst}
use bt_ota_bluez_api.Common.{
  ℕ, suc, ◌≤◌, ◌≡◌, refl, ◌∙◌, true, false, Option, some, List, [], ◌∷◌, ◌++◌, arith, get_or,
  length, CharSign,
}
use bt_ota_bluez_api.Common.Int.{pos}
use bt_ota_bluez_api.Ota.Update.State.{returned, fw_data_buf_size, Updater, System}
use bt_ota_bluez_api.Ota.Update.Start.{ota_start, is_verbose}
use bt_ota_bluez_api.Ota.Update.StartLaws.{ota_start-IsStarted}
use bt_ota_bluez_api.Ota.Update.Whole.{AllTake, AllFit, Before, Finishes, round, rounds, packets}
use bt_ota_bluez_api.Ota.Update.Rounds.{rounds-Before, finish-returns, run-append}
use bt_ota_bluez_api.Ota.Update.SameImage.{AllWithin, Within-same, AllTake-same, packets-same}
use bt_ota_bluez_api.Ota.Update.Steps.{Turn, update_turn, run}

-- The bytes of a file, zero past its end.
abbrev pub bytes_of : List ℕ → ℕ → ℕ
bytes_of file k = get_or file k 0

module _ (name : List ℕ) (param2 : Option (List ℕ)) (fopen : List ℕ → Option (List ℕ))
    (stack : Updater) (sign : CharSign) (w : ℕ) (s₀ : System) (file : List ℕ)
    (answers : List (List ℕ)) (last : List ℕ) where
  -- The turns of the two threads: a round for each response, and the exit.
  abbrev pub schedule : List Turn
  schedule = rounds w answers ++ (round w last ++ (update_turn (pos w) ∷ []))

  -- When the file is opened and holds the commands, each in full, the log is off, the reading thread
  -- is created, and the device takes each command at once and confirms the last one as the finish
  -- command, then the update sends exactly the commands of the file, each once and in order, and
  -- returns, with nothing undefined on the way. The image has 33090 commands at most.
  pub ota_update_completes :
      fopen name ≡ some file
      → length file ≤ fw_data_buf_size
      → is_verbose param2 ≡ false
      → s₀.wire ≡ []
      → length answers ≤ 33089
      → AllWithin (bytes_of file) (length file) (suc (length answers))
      → AllTake (bytes_of file) 0 answers
      → Finishes last
      → (s : System) × (s' : System) × (ota_start (some name) param2 fopen stack true s₀ ≡ some s)
        × (run sign schedule s ≡ some s')
        × (s'.updater.pc ≡ returned)
        × (s'.wire ≡ packets (bytes_of file) (suc (length answers)))
        × (s'.globals.total_cmd_num ≡ suc (length answers))
  ota_update_completes opened sized quiet empty few within takes finishes =
      let i = ota_start-IsStarted name param2 fopen stack true s₀ file opened sized in
      let fw : ℕ → ℕ = i.s'.updater.fw_data_buf in
      let fit : AllFit fw 0 (suc (length answers)) = λ k lo hi.
        let (a, b, c) =
          Within-same (bytes_of file) fw (length file) i.image k
            (λ j below. within j (omega arith)) in
        (omega arith, omega arith, c) in
      let before : Before fw 0 i.s' = record {
        at_next = i.at_first;
        listens = (i.reading.1, i.reading.0);
        quiet = i.logging ∙ quiet;
        image = refl;
        place = omega (arith, i.fresh);
        not_empty = let (header, _, _) = within 0 (omega arith) in omega (arith, i.sized);
        counts = (omega (arith, i.uncounted), i.fresh.2);
        wired = i.kept.0 ∙ empty;
      } in
      let (m, goes, at_last) =
        rounds-Before fw sign w answers 0 i.s' (omega arith) (λ k lo hi. fit k lo (omega arith))
          (AllTake-same (bytes_of file) fw (length file) i.image answers 0
            (λ k below. within k (omega arith)) takes)
          before in
      let (s', goes', at, wired, total) =
        finish-returns fw sign w (length answers) last m few
          (fit (length answers) (omega arith) (omega arith)) finishes
          (subst (λ n. Before fw n m) (omega arith) at_last) in
      (
        i.s',
        s',
        i.returns,
        run-append sign (rounds w answers) _ i.s' m goes ∙ goes',
        at,
        wired ∙ packets-same (bytes_of file) fw (length file) i.image (suc (length answers)) within,
        total,
      )
