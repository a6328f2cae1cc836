-- ===== src/Ota/Update/Bounds/Command.antt =====
-- The next command keeps the bounds.
use mathlib.Core.Option.{none-ne-some}
use bt_ota_bluez_api.Common.{
  ℕ, zero, suc, ◌+◌, ◌≤◌, ◌<◌, ◌≡◌, ◌∙◌, inl, inr, some, arith, ltb, ltb→lt, CharSign, Bool-cases,
  Option-cases,
}
use bt_ota_bluez_api.Ota.Globals.{Globals}
use bt_ota_bluez_api.Ota.Update.State.{fw_data_buf_size, Updater}
use bt_ota_bluez_api.Ota.Update.Command.{begin_cmd, copy_cmd, note_data_cmd, fill_crc}
use bt_ota_bluez_api.Ota.Update.Next.{
  begin_cmd_parts, copy_cmd_again, start, size, blank, cut, recount,
}
use bt_ota_bluez_api.Ota.Update.Bounds.{ProgressOk, PlaceOk}

copy_cmd-within :
    (sign : CharSign) (fw : ℕ → ℕ) (idx left i : ℕ) (buf : ℕ → ℕ) (crc : ℕ) (r : (ℕ → ℕ) × ℕ)
    → copy_cmd sign fw idx (suc left) i buf crc ≡ some r
    → idx + i < fw_data_buf_size
unfolding copy_cmd
copy_cmd-within sign fw idx left i buf crc r h =
    elim (Bool-cases (ltb (idx + i) fw_data_buf_size)) [
      | inl e ↦ ltb→lt (idx + i) fw_data_buf_size e
      | inr e ↦ absurd (none-ne-some r (rw e at h))
    ]

-- A copy that comes back stayed in the image.
pub copy_cmd-fits :
    (sign : CharSign) (fw : ℕ → ℕ) (idx left i : ℕ) (buf : ℕ → ℕ) (crc : ℕ) (r : (ℕ → ℕ) × ℕ)
    → idx + i ≤ fw_data_buf_size
    → copy_cmd sign fw idx left i buf crc ≡ some r
    → idx + i + left ≤ fw_data_buf_size
copy_cmd-fits sign fw idx zero i buf crc r low h = omega arith
copy_cmd-fits sign fw idx (suc left) i buf crc r low h =
    let within = copy_cmd-within sign fw idx left i buf crc r h in
    let rest =
      copy_cmd-fits sign fw idx left (i + 1) _ _ r (omega arith)
        (copy_cmd_again sign fw idx left i buf crc r h) in
    omega arith

note_data_cmd-ProgressOk :
    (sign : CharSign) (v : Updater) (g : Globals) {u' : Updater} {g' : Globals}
    → (g.num2 ≤ 100) × (g.num2 ≤ g.num1) × (g.num1 + 1 ≤ g.total_cmd_num)
    → note_data_cmd sign v g ≡ some (u', g')
    → ProgressOk g'
      × (u'.wait_count ≡ v.wait_count)
      × (u'.current_cmd_idx ≡ v.current_cmd_idx)
      × (u'.current_cmd_len ≡ v.current_cmd_len)
unfolding note_data_cmd
note_data_cmd-ProgressOk sign v g h k = (ground arith, ground arith, ground arith, ground arith)

fill_crc-PlaceOk :
    (sign : CharSign) (v : Updater) (g : Globals) {u' : Updater} {g' : Globals}
    → fill_crc sign v g ≡ some (u', g')
    → (g'.num1 ≡ g.num1)
      × (g'.num2 ≡ g.num2)
      × (g'.total_cmd_num ≡ g.total_cmd_num)
      × (u'.wait_count ≡ v.wait_count)
      × (u'.current_cmd_idx ≡ v.current_cmd_idx)
      × (u'.current_cmd_len ≡ v.current_cmd_len)
      × (v.current_cmd_len ≤ 1021)
unfolding fill_crc
fill_crc-PlaceOk sign v g h = ground arith

module _ (sign : CharSign) (u : Updater) (g : Globals) where
  -- What the next command leaves in bounds.
  abbrev pub Kept : Updater → Globals → Type 0
  Kept u' g' = ProgressOk g' × PlaceOk u' × (u'.wait_count ≡ u.wait_count)

  pub begin_cmd-Kept :
      (u' : Updater) (g' : Globals)
      → ProgressOk g
      → PlaceOk u
      → begin_cmd sign u g ≡ some (u', g')
      → Kept u' g'
  begin_cmd-Kept u' g' h place k =
      let (p, copies, rest) = begin_cmd_parts sign u g (u', g') k in
      elim (Option-cases (note_data_cmd sign (cut sign u g p) (recount sign u g))) [
        | inl e ↦ absurd (none-ne-some (u', g') (rw e at rest))
        | inr (q, e) ↦
            let n =
              note_data_cmd-ProgressOk sign (cut sign u g p) (recount sign u g) {u' = q.0}
                {g' = q.1} (omega arith) e in
            let f = fill_crc-PlaceOk sign q.0 q.1 {u' = u'} {g' = g'} (rw e at rest) in
            let within =
              copy_cmd-fits sign u.fw_data_buf (start sign u g) (size sign u g) 0 (blank sign u g) 0
                p (omega arith) copies in
            ((omega arith, omega arith, omega arith), (omega arith, omega arith), f.3 ∙ n.1)
      ]
