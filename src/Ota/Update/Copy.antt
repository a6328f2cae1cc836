-- ===== src/Ota/Update/Copy.antt =====
-- The loop of FLAG_SNED_NEXT_CMD that copies a command into `cmd_buf`.
use bt_ota_bluez_api.Common.{
  ℕ, zero, suc, ◌+◌, ◌≤◌, ◌<◌, ◌≡◌, refl, ◌⊎◌, inl, inr, Option, none, some, List, [], ◌∷◌, arith,
  update, slice, CharSign, Bool-cases, ==_iff, ◌==◌, ◌∙◌, ap,
}
use bt_ota_bluez_api.Ota.Update.State.{fw_data_buf_size, cmd_buf_size}
use bt_ota_bluez_api.Ota.Update.Command.{add_crc, copy_cmd}

-- The sum of the chars, as an `uint16_t` that starts at `crc`.
unfoldable pub sum16 : CharSign → ℕ → List ℕ → ℕ
sum16 sign crc [] = crc
sum16 sign crc (c ∷ cs) = sum16 sign (add_crc sign crc c) cs

-- `cmd_buf[i + 1 ..]` has got `left` bytes from `fw[idx + i ..]`, and nothing else has changed.
pub record IsCopied (sign : CharSign) (fw : ℕ → ℕ) (idx left i : ℕ) (buf : ℕ → ℕ) (crc : ℕ)
    (result : Option ((ℕ → ℕ) × ℕ)) : Type 0 where
  pub out : ℕ → ℕ
  pub sum : ℕ
  pub returns : result ≡ some (out, sum)
  pub inside : (k : ℕ) → i ≤ k → k < i + left → out (suc k) ≡ fw (idx + k)
  pub outside : (k : ℕ) → (k ≤ i) ⊎ (i + left < k) → out k ≡ buf k
  pub sums : sum ≡ sum16 sign crc (slice fw (idx + i) left)

pub copy_cmd-suc :
    (sign : CharSign) (fw : ℕ → ℕ) (idx left i : ℕ) (buf : ℕ → ℕ) (crc : ℕ)
    → idx + i < fw_data_buf_size
    → i + 1 < cmd_buf_size
    → copy_cmd sign fw idx (suc left) i buf crc
      ≡ copy_cmd sign fw idx left
          (i + 1)
          (update buf (i + 1) (fw (idx + i)))
          (add_crc sign crc (fw (idx + i)))
unfolding copy_cmd
copy_cmd-suc sign fw idx left i buf crc h k = ground arith

-- One round, and the rounds after it.
pub IsCopied-step :
    (sign : CharSign) (fw : ℕ → ℕ) (idx left i : ℕ) (buf : ℕ → ℕ) (crc : ℕ)
    {result : Option ((ℕ → ℕ) × ℕ)}
    → IsCopied sign fw idx left
        (i + 1)
        (update buf (i + 1) (fw (idx + i)))
        (add_crc sign crc (fw (idx + i)))
        result
    → IsCopied sign fw idx (suc left) i buf crc result
unfolding sum16
IsCopied-step sign fw idx left i buf crc rest = record {
  out = rest.out;
  sum = rest.sum;
  returns = rest.returns;
  inside = λ k p q. elim (Bool-cases (k == i)) [
    | inl e ↦
        let here : k ≡ i = (==_iff k i).0 e in
        rw here (ground (arith, rest.outside (suc i) (inl (omega arith))))
    | inr e ↦ let later : i + 1 ≤ k = ground arith in rest.inside k later (omega arith)
  ];
  outside = λ k p. ground (arith, rest.outside k);
  sums = rest.sums ∙ ap (sum16 sign (add_crc sign crc (fw (idx + i)))) next;
}
  where
    next : slice fw (idx + (i + 1)) left ≡ slice fw (suc (idx + i)) left
    next = ap (λ (n : ℕ). slice fw n left) (omega arith)

-- Where the command fits both arrays, the loop copies it and sums it up.
pub copy_cmd-IsCopied :
    (sign : CharSign) (fw : ℕ → ℕ) (idx left i : ℕ) (buf : ℕ → ℕ) (crc : ℕ)
    → idx + i + left ≤ fw_data_buf_size
    → i + left < cmd_buf_size
    → IsCopied sign fw idx left i buf crc (copy_cmd sign fw idx left i buf crc)
copy_cmd-IsCopied sign fw idx zero i buf crc h k = record {
  out = buf;
  sum = crc;
  returns = unfold copy_cmd in refl;
  inside = λ j p q. absurd (omega arith);
  outside = λ j p. refl;
  sums = unfold sum16 in refl;
}
copy_cmd-IsCopied sign fw idx (suc left) i buf crc h k =
    rw (copy_cmd-suc sign fw idx left i buf crc (omega arith) (omega arith)) (
      IsCopied-step sign fw idx left i buf crc
        (copy_cmd-IsCopied sign fw idx left (i + 1) _ _ (omega arith) (omega arith)))

-- A command that is too long for `cmd_buf` is copied past its end.
pub copy_cmd_too_long :
    (sign : CharSign) (fw : ℕ → ℕ) (idx left i : ℕ) (buf : ℕ → ℕ) (crc : ℕ)
    → i < cmd_buf_size
    → cmd_buf_size ≤ i + left
    → copy_cmd sign fw idx left i buf crc ≡ none
unfolding copy_cmd
copy_cmd_too_long sign fw idx zero i buf crc below h = absurd (omega arith)
copy_cmd_too_long sign fw idx (suc left) i buf crc below h = ground (
  arith,
  copy_cmd_too_long sign fw idx left (i + 1) (update buf (i + 1) (fw (idx + i)))
      (add_crc sign crc (fw (idx + i))),
)
