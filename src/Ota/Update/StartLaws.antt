-- ===== src/Ota/Update/StartLaws.antt =====
-- What `ota_update` has set up when it gets to the first command.
use bt_ota_bluez_api.Common.{
  ℕ, zero, suc, ◌+◌, ◌≤◌, ◌<◌, ◌≡◌, refl, ◌∙◌, Bool, true, Option, none, some, List, [], ◌∷◌, arith,
  update, length, get_or, lt→ltb, ◌⊎◌, ap,
}
use bt_ota_bluez_api.Ota.Update.State.{send_next_cmd, fw_data_buf_size, Updater, System}
use bt_ota_bluez_api.Ota.Update.Start.{read_fw, ota_start, is_verbose}

-- `fw_data_buf` after the file: its bytes from index `i` on, and nothing else changed.
pub record IsRead (file : List ℕ) (i : ℕ) (buf : ℕ → ℕ) (result : Option (ℕ × (ℕ → ℕ)))
    : Type 0 where
  pub len : ℕ
  pub out : ℕ → ℕ
  pub returns : result ≡ some (len, out)
  pub counts : len ≡ i + length file
  pub inside : (k : ℕ) → k < length file → out (i + k) ≡ get_or file k 0
  pub outside : (k : ℕ) → (k < i) ⊎ (i + length file ≤ k) → out k ≡ buf k

IsRead-step :
    (c : ℕ) (file : List ℕ) (i : ℕ) (buf : ℕ → ℕ) {result : Option (ℕ × (ℕ → ℕ))}
    → IsRead file (i + 1) (update buf i c) result
    → IsRead (c ∷ file) i buf result
IsRead-step c file i buf rest = record {
  len = rest.len;
  out = rest.out;
  returns = rest.returns;
  counts = rest.counts ∙ omega arith;
  inside = at;
  outside = λ k p. ground (arith, rest.outside k);
}
  where
    at : (k : ℕ) → k < length (c ∷ file) → rest.out (i + k) ≡ get_or (c ∷ file) k 0
    at zero p = let e : i + 0 ≡ i = omega arith in rw e (ground (arith, rest.outside i))
    at (suc k) p = let e : i + suc k ≡ i + 1 + k = omega arith in rw e (rest.inside k (omega arith))

read_fw-suc :
    (c : ℕ) (file : List ℕ) (i : ℕ) (buf : ℕ → ℕ)
    → i < fw_data_buf_size
    → read_fw (c ∷ file) i buf ≡ read_fw file (i + 1) (update buf i c)
unfolding read_fw
read_fw-suc c file i buf h = rw (lt→ltb _ _ h)

read_fw-IsRead :
    (file : List ℕ) (i : ℕ) (buf : ℕ → ℕ)
    → i + length file ≤ fw_data_buf_size
    → IsRead file i buf (read_fw file i buf)
read_fw-IsRead [] i buf h = record {
  len = i;
  out = buf;
  returns = unfold read_fw in refl;
  counts = omega arith;
  inside = λ k p. absurd (omega arith);
  outside = λ k p. refl;
}
read_fw-IsRead (c ∷ file) i buf h =
    rw (read_fw-suc c file i buf (omega arith))
      (IsRead-step c file i buf (read_fw-IsRead file (i + 1) _ (omega arith)))

read_fw_too_long :
    (file : List ℕ) (i : ℕ) (buf : ℕ → ℕ)
    → i ≤ fw_data_buf_size
    → fw_data_buf_size < i + length file
    → read_fw file i buf ≡ none
unfolding read_fw
read_fw_too_long [] i buf below h = absurd (omega arith)
read_fw_too_long (c ∷ file) i buf below h =
    ground (arith, read_fw_too_long file (i + 1) (update buf i c))

module _ (name : List ℕ) (param2 : Option (List ℕ)) (fopen : List ℕ → Option (List ℕ))
    (stack : Updater) (created : Bool) (s : System) where
  abbrev started : Option System
  started = ota_start (some name) param2 fopen stack created s

  -- The machine stands before the first command, and the image is in `fw_data_buf`.
  pub record IsStarted (file : List ℕ) (result : Option System) : Type 0 where
    pub s' : System
    pub returns : result ≡ some s'
    pub at_first : s'.updater.pc ≡ send_next_cmd
    pub image : (k : ℕ) → k < length file → s'.updater.fw_data_buf k ≡ get_or file k 0
    pub sized : s'.updater.fw_data_len ≡ length file
    pub fresh :
        (s'.updater.current_cmd_idx ≡ 0)
        × (s'.updater.current_cmd_len ≡ 0)
        × (s'.globals.total_cmd_num ≡ 0)
    pub reading : (s'.globals.flag_read ≡ true) × (s'.reader_running ≡ created)
    pub logging : s'.globals.is_verbose_log ≡ is_verbose param2
    pub uncounted : s'.globals.num1 ≡ 0
    pub kept : (s'.wire ≡ s.wire) × (s'.sockets ≡ s.sockets)

  -- A file of 524288 bytes at most is read whole, and the first command comes next.
  pub ota_start-IsStarted :
      (file : List ℕ)
      → fopen name ≡ some file
      → length file ≤ fw_data_buf_size
      → IsStarted file started
  unfolding ota_start
  ota_start-IsStarted file opened fits =
      let r = read_fw-IsRead file 0 stack.fw_data_buf (omega arith) in
      rw (opened, r.returns)
        (record {
          s' = _;
          returns = refl;
          at_first = refl;
          image = λ k p. ap r.out (omega arith) ∙ r.inside k p;
          sized = r.counts ∙ omega arith;
          fresh = (refl, refl, refl);
          reading = (refl, refl);
          logging = refl;
          uncounted = refl;
          kept = (refl, refl);
        })

  -- A file of more than 524288 bytes is read past the end of `fw_data_buf`.
  pub ota_start_too_long :
      (file : List ℕ) → fopen name ≡ some file → fw_data_buf_size < length file → started ≡ none
  unfolding ota_start
  ota_start_too_long file opened long =
      rw (opened, read_fw_too_long file 0 stack.fw_data_buf (omega arith) (omega arith))
