-- ===== src/Ota/Update/SameImage.antt =====
-- Two images that agree up to the end of the file have the same commands.
use mathlib.Core.Path.{subst, ap₂}
use bt_ota_bluez_api.Common.{
  ℕ, zero, suc, ◌+◌, ◌*◌, ◌≤◌, ◌<◌, ◌≡◌, refl, sym, ap, ◌∙◌, inl, inr, List, [], ◌∷◌, arith,
  slice_ext, ltb, ltb→lt, Bool-cases, length, bit_or, ◌^◌,
}
use bt_ota_bluez_api.Ota.Update.Command.{cmd_len_at}
use bt_ota_bluez_api.Ota.Update.Transcript.{offset, framed_cmd}
use bt_ota_bluez_api.Ota.Update.Whole.{byte_of, TakesAt, AllTake, packets}

-- The command with number `n` lies in the first `size` bytes and fits `cmd_buf`.
abbrev pub Within : (ℕ → ℕ) → ℕ → ℕ → Type 0
Within fw size n =
    (offset fw n + 2 < size) × (offset fw (suc n) ≤ size) × (cmd_len_at fw (offset fw n) ≤ 1021)

-- So do all commands below number `last`.
abbrev pub AllWithin : (ℕ → ℕ) → ℕ → ℕ → Type 0
AllWithin fw size last = (n : ℕ) → n < last → Within fw size n

module _ (fw fw' : ℕ → ℕ) (size : ℕ) (same : (k : ℕ) → k < size → fw' k ≡ fw k) where
  cmd_len_at-same : (i : ℕ) → i + 2 < size → cmd_len_at fw' i ≡ cmd_len_at fw i
  cmd_len_at-same i h =
      ap₂ (λ lo hi. bit_or lo (hi * 2 ^ 8)) (same (i + 1) (omega arith))
        (same (i + 2) (omega arith))

  pub offset-same : (n : ℕ) → AllWithin fw size n → offset fw' n ≡ offset fw n
  offset-same zero h = refl
  offset-same (suc n) h =
      let e = offset-same n (λ k below. h k (omega arith)) in
      ap (λ i. i + cmd_len_at fw' i) e
      ∙ ap (λ l. offset fw n + l) (cmd_len_at-same (offset fw n) (h n (omega arith)).0)

  -- The place and the size of a command.
  len-same :
      (n : ℕ)
      → AllWithin fw size (suc n)
      → cmd_len_at fw' (offset fw' n) ≡ cmd_len_at fw (offset fw n)
  len-same n h =
      ap (cmd_len_at fw') (offset-same n (λ k below. h k (omega arith)))
      ∙ cmd_len_at-same (offset fw n) (h n (omega arith)).0

  pub Within-same : (n : ℕ) → AllWithin fw size (suc n) → Within fw' size n
  Within-same n h =
      let at = offset-same n (λ k below. h k (omega arith)) in
      let next = offset-same (suc n) h in
      let len = len-same n h in
      let (a, b, c) = h n (omega arith) in
      (
        subst (λ i. i + 2 < size) (sym at) a,
        subst (λ i. i ≤ size) (sym next) b,
        subst (λ l. l ≤ 1021) (sym len) c,
      )

  byte_of-same : (n k : ℕ) → AllWithin fw size (suc n) → byte_of fw' n k ≡ byte_of fw n k
  byte_of-same n k h =
      rw (len-same n h, offset-same n (λ k below. h k (omega arith)))
        (elim (Bool-cases (ltb k (cmd_len_at fw (offset fw n)))) [
          | inr out ↦ rw out
          | inl inside ↦
              let below = ltb→lt k (cmd_len_at fw (offset fw n)) inside in
              let (_, b, _) = h n (omega arith) in rw inside (same (offset fw n + k) (omega arith))
        ])

  framed_cmd-same : (n : ℕ) → AllWithin fw size (suc n) → framed_cmd fw' n ≡ framed_cmd fw n
  framed_cmd-same n h =
      rw (len-same n h, offset-same n (λ k below. h k (omega arith)))
        (ap (λ p. 0x52 ∷ p)
          (slice_ext fw' fw (offset fw n) (offset fw n) (cmd_len_at fw (offset fw n))
            λ k below. let (_, b, _) = h n (omega arith) in same (offset fw n + k) (omega arith)))

  pub packets-same : (n : ℕ) → AllWithin fw size n → packets fw' n ≡ packets fw n
  packets-same zero h = refl
  packets-same (suc n) h =
      ap₂ ◌∷◌ (framed_cmd-same n h) (packets-same n (λ k below. h k (omega arith)))

  TakesAt-same :
      (n : ℕ) (bytes : List ℕ)
      → AllWithin fw size (suc n)
      → TakesAt fw n bytes
      → TakesAt fw' n bytes
  TakesAt-same n bytes h t = rw (byte_of-same n 4 h, byte_of-same n 5 h, byte_of-same n 6 h) t

  pub AllTake-same :
      (answers : List (List ℕ)) (n : ℕ)
      → AllWithin fw size (n + length answers)
      → AllTake fw n answers
      → AllTake fw' n answers
  AllTake-same [] n h t = tt
  AllTake-same (bytes ∷ answers) n h (t, rest) = (
    TakesAt-same n bytes (λ k below. h k (omega arith)) t,
    AllTake-same answers (suc n) (λ k below. h k (omega arith)) rest,
  )
