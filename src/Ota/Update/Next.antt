-- ===== src/Ota/Update/Next.antt =====
-- What is known of the next command whenever the code gets as far as FLAG_RETRY_CMD.
use mathlib.Core.Path.{ap₂}
use mathlib.Core.Option.{none-ne-some, some-injective}
use bt_ota_bluez_api.Common.{
  ℕ, zero, suc, ◌+◌, ◌≤◌, ◌<◌, ◌≡◌, refl, sym, ◌∙◌, ap, inl, inr, Option, some, ◌∷◌, arith, update,
  slice, slice_ext, ltb, CharSign, Bool-cases, Option-cases, ◌>>=◌,
}
use bt_ota_bluez_api.Ota.Globals.{Globals}
use bt_ota_bluez_api.Ota.Protocol.{stage_new_cmd}
use bt_ota_bluez_api.Ota.Update.State.{Updater, retry_cmd, fw_data_buf_size, cmd_buf_size}
use bt_ota_bluez_api.Ota.Update.Command.{
  add_crc, copy_cmd, begin_cmd, note_data_cmd, fill_crc, cmd_len_at,
}
use bt_ota_bluez_api.Ota.Update.Steps.{packet}
use bt_ota_bluez_api.Ota.Update.Copy.{IsCopied, IsCopied-step, sum16}

pub copy_cmd_again :
    (sign : CharSign) (fw : ℕ → ℕ) (idx left i : ℕ) (buf : ℕ → ℕ) (crc : ℕ) (r : (ℕ → ℕ) × ℕ)
    → copy_cmd sign fw idx (suc left) i buf crc ≡ some r
    → copy_cmd sign fw idx left
        (i + 1)
        (update buf (i + 1) (fw (idx + i)))
        (add_crc sign crc (fw (idx + i)))
      ≡ some r
unfolding copy_cmd
copy_cmd_again sign fw idx left i buf crc r h = elim (Bool-cases (ltb (idx + i) fw_data_buf_size)) [
  | inr out ↦ absurd (none-ne-some r (rw out at h))
  | inl within ↦ elim (Bool-cases (ltb (i + 1) cmd_buf_size)) [
    | inr full ↦ absurd (none-ne-some r (rw (within, full) at h))
    | inl fits ↦ rw (within, fits) at h
  ]
]

-- A copy that comes back has copied the command.
pub copy_cmd-IsCopied_back :
    (sign : CharSign) (fw : ℕ → ℕ) (idx left i : ℕ) (buf : ℕ → ℕ) (crc : ℕ) (r : (ℕ → ℕ) × ℕ)
    → copy_cmd sign fw idx left i buf crc ≡ some r
    → IsCopied sign fw idx left i buf crc (some r)
copy_cmd-IsCopied_back sign fw idx zero i buf crc r h = record {
  out = buf;
  sum = crc;
  returns = sym (unfold copy_cmd in h);
  inside = λ j p q. absurd (omega arith);
  outside = λ j p. refl;
  sums = unfold sum16 in refl;
}
copy_cmd-IsCopied_back sign fw idx (suc left) i buf crc r h =
    IsCopied-step sign fw idx left i buf crc (
      copy_cmd-IsCopied_back sign fw idx left (i + 1) _ _ r
        (copy_cmd_again sign fw idx left i buf crc r h))

-- The command that starts where the last one ended, framed for sending; it is fresh and counted.
pub record IsNext (u : Updater) (g : Globals) (u' : Updater) (g' : Globals) : Type 0 where
  pub at_retry : u'.pc ≡ retry_cmd
  pub fresh : u'.send_count ≡ 0
  pub moved : u'.current_cmd_idx ≡ u.current_cmd_idx + u.current_cmd_len
  pub sized : u'.current_cmd_len ≡ cmd_len_at u.fw_data_buf u'.current_cmd_idx
  pub image : u'.fw_data_buf ≡ u.fw_data_buf
  pub framed : packet u' ≡ 0x52 ∷ slice u.fw_data_buf u'.current_cmd_idx u'.current_cmd_len
  pub counted : g'.total_cmd_num ≡ g.total_cmd_num + 1
  pub staged : g'.ota_stage ≡ stage_new_cmd

-- `fill_crc` writes behind the command.
fill_crc-frame :
    (sign : CharSign) (v : Updater) (g : Globals) {u' : Updater} {g' : Globals}
    → fill_crc sign v g ≡ some (u', g')
    → (u'.pc ≡ retry_cmd)
      × (u'.send_count ≡ v.send_count)
      × (u'.current_cmd_idx ≡ v.current_cmd_idx)
      × (u'.current_cmd_len ≡ v.current_cmd_len)
      × (u'.fw_data_buf ≡ v.fw_data_buf)
      × (g'.total_cmd_num ≡ g.total_cmd_num)
      × (g'.ota_stage ≡ g.ota_stage)
      × ((k : ℕ) → k ≤ v.current_cmd_len → u'.cmd_buf k ≡ v.cmd_buf k)
unfolding fill_crc
fill_crc-frame sign v g h = ground arith

note_data_cmd-frame :
    (sign : CharSign) (v : Updater) (g : Globals) {u' : Updater} {g' : Globals}
    → note_data_cmd sign v g ≡ some (u', g')
    → (u'.send_count ≡ v.send_count)
      × (u'.current_cmd_idx ≡ v.current_cmd_idx)
      × (u'.current_cmd_len ≡ v.current_cmd_len)
      × (u'.fw_data_buf ≡ v.fw_data_buf)
      × (u'.cmd_buf ≡ v.cmd_buf)
      × (g'.total_cmd_num ≡ g.total_cmd_num)
      × (g'.ota_stage ≡ g.ota_stage)
unfolding note_data_cmd
note_data_cmd-frame sign v g h = ground arith

module _ (sign : CharSign) (u : Updater) (g : Globals) where
  abbrev pub start : ℕ
  start = u.current_cmd_idx + u.current_cmd_len

  abbrev pub size : ℕ
  size = cmd_len_at u.fw_data_buf start

  abbrev pub blank : ℕ → ℕ
  blank = update (λ _. 0) 0 0x52

  abbrev pub cut : (ℕ → ℕ) × ℕ → Updater
  cut p = record u {
    send_count = 0;
    current_cmd_idx = start;
    current_cmd_len = size;
    cmd_buf = p.0;
    crc_res = p.1;
  }

  abbrev pub recount : Globals
  recount = record g {
    current_data_seq = 0;
    ota_stage = stage_new_cmd;
    total_cmd_num = g.total_cmd_num + 1;
  }

  -- The two calls that follow the copy.
  abbrev pub rest_of : (ℕ → ℕ) × ℕ → Option (Updater × Globals)
  rest_of p = note_data_cmd sign (cut p) recount >>= λ q. fill_crc sign q.0 q.1

  pub begin_cmd_parts :
      (r : Updater × Globals)
      → begin_cmd sign u g ≡ some r
      → (p : (ℕ → ℕ) × ℕ) × (copy_cmd sign u.fw_data_buf start size 0 blank 0 ≡ some p)
        × (rest_of p ≡ some r)
  unfolding begin_cmd
  begin_cmd_parts r h = elim (Bool-cases (ltb (start + 2) fw_data_buf_size)) [
    | inr out ↦ absurd (none-ne-some r (rw out at h))
    | inl within ↦ elim (Option-cases (copy_cmd sign u.fw_data_buf start size 0 blank 0)) [
      | inl e ↦ absurd (none-ne-some r (rw (within, e) at h))
      | inr (p, e) ↦ (p, e, rw (within, e) at h)
    ]
  ]

  -- What the loop has put into `cmd_buf`.
  pub copied_bytes :
      (p : (ℕ → ℕ) × ℕ)
      → copy_cmd sign u.fw_data_buf start size 0 blank 0 ≡ some p
      → (p.0 0 ≡ 0x52) × ((k : ℕ) → k < size → p.0 (suc k) ≡ u.fw_data_buf (start + k))
  copied_bytes p h =
      let c = copy_cmd-IsCopied_back sign u.fw_data_buf start size 0 blank 0 p h in
      let e = some-injective p (c.out, c.sum) c.returns in
      (
        ap (λ (r : (ℕ → ℕ) × ℕ). r.0 0) e ∙ c.outside 0 (inl (omega arith)),
        λ k below. ap (λ (r : (ℕ → ℕ) × ℕ). r.0 (suc k)) e ∙ c.inside k (omega arith) (omega arith),
      )

  framed_packet :
      (p : (ℕ → ℕ) × ℕ) (v : Updater)
      → copy_cmd sign u.fw_data_buf start size 0 blank 0 ≡ some p
      → v.current_cmd_len ≡ size
      → ((k : ℕ) → k ≤ size → v.cmd_buf k ≡ p.0 k)
      → packet v ≡ 0x52 ∷ slice u.fw_data_buf start size
  framed_packet p v h e same =
      let (top, body) = copied_bytes p h in
      rw e (
        ap₂ ◌∷◌ (same 0 (omega arith) ∙ top) (
          slice_ext v.cmd_buf u.fw_data_buf 1 start size λ k below.
            let one : 1 + k ≡ suc k = omega arith in
            rw one (same (suc k) (omega arith) ∙ body k below)))

  rest_of-IsNext :
      (p : (ℕ → ℕ) × ℕ) (u' : Updater) (g' : Globals)
      → copy_cmd sign u.fw_data_buf start size 0 blank 0 ≡ some p
      → rest_of p ≡ some (u', g')
      → IsNext u g u' g'
  rest_of-IsNext p u' g' h k = elim (Option-cases (note_data_cmd sign (cut p) recount)) [
    | inl e ↦ absurd (none-ne-some (u', g') (rw e at k))
    | inr (q, e) ↦
        let n = note_data_cmd-frame sign (cut p) recount {u' = q.0} {g' = q.1} e in
        let f = fill_crc-frame sign q.0 q.1 {u' = u'} {g' = g'} (rw e at k) in
        record {
          at_retry = f.0;
          fresh = f.1 ∙ n.0;
          moved = f.2 ∙ n.1;
          sized = f.3 ∙ n.2 ∙ ap (cmd_len_at u.fw_data_buf) (sym (f.2 ∙ n.1));
          image = f.4 ∙ n.3;
          framed =
              framed_packet p u' h (f.3 ∙ n.2)
                (λ k below. f.7 k (rw n.2 below) ∙ ap (λ (b : ℕ → ℕ). b k) n.4)
              ∙ ap₂ (λ i l. 0x52 ∷ slice u.fw_data_buf i l) (sym (f.2 ∙ n.1)) (sym (f.3 ∙ n.2));
          counted = f.5 ∙ n.5;
          staged = f.6 ∙ n.6;
        }
  ]

  -- When the code gets to FLAG_RETRY_CMD, the packet is the command that stands where the last one
  -- ended, with its own size, behind the report type.
  pub begin_cmd-IsNext :
      (u' : Updater) (g' : Globals) → begin_cmd sign u g ≡ some (u', g') → IsNext u g u' g'
  begin_cmd-IsNext u' g' h =
      let (p, e, k) = begin_cmd_parts (u', g') h in rest_of-IsNext p u' g' e k
