-- ===== src/Ota/Update/Defined.antt =====
-- When FLAG_SNED_NEXT_CMD stays within its arrays and its integers.
use mathlib.Core.Path.{subst, subst₂}
use mathlib.Core.Option.{none-ne-some, some-injective}
use bt_ota_bluez_api.Common.{
  ℕ, ◌+◌, ◌*◌, ◌^◌, ◌≤◌, ◌<◌, ◌≡◌, ◌≢◌, sym, ap, ◌∙◌, ◌⊎◌, ◌↔◌, inl, inr, none, some, arith, ltb,
  ltb→lt, lt→ltb, CharSign, unsigned_char, signed_char, Bool-cases, Option-cases, refl, ◌==◌,
  if◌then◌else◌,
}
use bt_ota_bluez_api.Common.Int.{ℤ, pos, ◌-ℤ◌, pos_part, neg_part}
use bt_ota_bluez_api.Ota.Globals.{Globals}
use bt_ota_bluez_api.Ota.Update.State.{Updater, fw_data_buf_size}
use bt_ota_bluez_api.Ota.Update.Command.{begin_cmd, note_data_cmd, fill_crc}
use bt_ota_bluez_api.Ota.Update.Copy.{IsCopied, copy_cmd-IsCopied}
use bt_ota_bluez_api.Ota.Update.Next.{
  copy_cmd-IsCopied_back, begin_cmd_parts, begin_cmd-IsNext, start, size, blank, cut, recount,
  rest_of,
}
use bt_ota_bluez_api.Ota.Update.Begin.{cmd_byte}
use bt_ota_bluez_api.Ota.Update.Bounds.Command.{copy_cmd-fits}

-- The progress can be computed.
abbrev Computes : ℕ → Globals → Type 0
Computes fw_data_len g = (g.num1 * 64900 < 2 ^ 31) × (0 < fw_data_len)

note_data_cmd-Computes :
    (sign : CharSign) (v : Updater) (g : Globals) {u' : Updater} {g' : Globals}
    → note_data_cmd sign v g ≡ some (u', g')
    → ((v.cmd_buf 5 ≢ 2) ⊎ Computes v.fw_data_len g) × (u'.current_cmd_len ≡ v.current_cmd_len)
unfolding note_data_cmd
note_data_cmd-Computes unsigned_char v g h = ground arith
note_data_cmd-Computes signed_char v g h = ground arith

note_data_cmd_defined :
    (sign : CharSign) (v : Updater) (g : Globals)
    → (v.cmd_buf 5 ≢ 2) ⊎ Computes v.fw_data_len g
    → note_data_cmd sign v g ≢ none
unfolding note_data_cmd
note_data_cmd_defined unsigned_char v g h = λ e. ground arith
note_data_cmd_defined signed_char v g h = λ e. ground arith

fill_crc-le :
    (sign : CharSign) (v : Updater) (g : Globals) {u' : Updater} {g' : Globals}
    → fill_crc sign v g ≡ some (u', g')
    → v.current_cmd_len ≤ 1021
unfolding fill_crc
fill_crc-le sign v g h = ground arith

fill_crc_defined :
    (sign : CharSign) (v : Updater) (g : Globals)
    → v.current_cmd_len ≤ 1021
    → fill_crc sign v g ≢ none
unfolding fill_crc
fill_crc_defined sign v g h = λ e. ground arith

note_data_cmd-remain :
    (sign : CharSign) (v : Updater) (g : Globals) {u' : Updater} {g' : Globals}
    → note_data_cmd sign v g ≡ some (u', g')
    → u'.remain_data_len
      ≡ (if v.cmd_buf 5 == 2 then v.remain_data_len -ℤ pos v.current_cmd_len else v.remain_data_len)
unfolding note_data_cmd
note_data_cmd-remain unsigned_char v g h = ground arith
note_data_cmd-remain signed_char v g h = ground arith

fill_crc-remain :
    (sign : CharSign) (v : Updater) (g : Globals) {u' : Updater} {g' : Globals}
    → fill_crc sign v g ≡ some (u', g')
    → u'.remain_data_len ≡ v.remain_data_len
unfolding fill_crc
fill_crc-remain sign v g h = ground arith

-- What an `int` of 32 bits can hold.
abbrev pub FitsInt : ℤ → Type 0
FitsInt z = (pos_part z < 2 ^ 31) × (neg_part z ≤ 2 ^ 31)

-- The numbers that the code keeps in an `int` without checking them: the commands counted, and what
-- is left of the image.
abbrev pub CountersFit : ℕ → ℤ → Type 0
CountersFit total remain = (total < 2 ^ 31) × FitsInt remain

module _ (sign : CharSign) (u : Updater) (g : Globals) where
  -- The next command lies in the image's array and fits `cmd_buf`, and if it is a data command the
  -- progress can be computed: the image is not empty, and the product fits an int.
  abbrev pub Fits : Type 0
  Fits =
      (start sign u g + 2 < fw_data_buf_size)
      × (start sign u g + size sign u g ≤ fw_data_buf_size)
      × (size sign u g ≤ 1021)
      × ((cmd_byte sign u g 4 ≢ 2) ⊎ ((g.num1 * 64900 < 2 ^ 31) × (0 < u.fw_data_len)))

  -- The byte that tells a data command, after the copy.
  code_byte :
      (p : (ℕ → ℕ) × ℕ)
      → (c : IsCopied sign u.fw_data_buf
          (start sign u g)
          (size sign u g)
          0
          (blank sign u g)
          0
          (some p))
      → p.0 5 ≡ cmd_byte sign u g 4
  code_byte p c =
      ap (λ (r : (ℕ → ℕ) × ℕ). r.0 5) (some-injective p (c.out, c.sum) c.returns)
      ∙ ground (arith, c.inside 4, c.outside 5)

  rest_of-Fits :
      (p : (ℕ → ℕ) × ℕ) (r : Updater × Globals)
      → rest_of sign u g p ≡ some r
      → ((p.0 5 ≢ 2) ⊎ Computes u.fw_data_len g) × (size sign u g ≤ 1021)
  rest_of-Fits p r h =
      elim (Option-cases (note_data_cmd sign (cut sign u g p) (recount sign u g))) [
        | inl e ↦ absurd (none-ne-some r (rw e at h))
        | inr (q, e) ↦
            let (computes, same) =
              note_data_cmd-Computes sign (cut sign u g p) (recount sign u g) {u' = q.0} {g' = q.1}
                e in
            (
              computes,
              omega (arith, same, fill_crc-le sign q.0 q.1 {u' = r.0} {g' = r.1} (rw e at h)),
            )
      ]

  rest_of_defined :
      (p : (ℕ → ℕ) × ℕ)
      → (p.0 5 ≢ 2) ⊎ Computes u.fw_data_len g
      → size sign u g ≤ 1021
      → (r : Updater × Globals) × (rest_of sign u g p ≡ some r)
  rest_of_defined p computes few =
      elim (Option-cases (note_data_cmd sign (cut sign u g p) (recount sign u g))) [
        | inl e ↦ absurd (note_data_cmd_defined sign (cut sign u g p) (recount sign u g) computes e)
        | inr (q, e) ↦
            let (_, same) =
              note_data_cmd-Computes sign (cut sign u g p) (recount sign u g) {u' = q.0} {g' = q.1}
                e in
            elim (Option-cases (fill_crc sign q.0 q.1)) [
              | inl f ↦ absurd (fill_crc_defined sign q.0 q.1 (omega (arith, same)) f)
              | inr (r, f) ↦ (r, rw e f)
            ]
      ]

  begin_cmd-within :
      (r : Updater × Globals) → begin_cmd sign u g ≡ some r → start sign u g + 2 < fw_data_buf_size
  unfolding begin_cmd
  begin_cmd-within r h = elim (Bool-cases (ltb (start sign u g + 2) fw_data_buf_size)) [
    | inl within ↦ ltb→lt _ _ within
    | inr out ↦ absurd (none-ne-some r (rw out at h))
  ]

  begin_cmd-Fits : (r : Updater × Globals) → begin_cmd sign u g ≡ some r → Fits
  begin_cmd-Fits r h =
      let within = begin_cmd-within r h in
      let (p, copies, rest) = begin_cmd_parts sign u g r h in
      let (computes, few) = rest_of-Fits p r rest in
      let c =
        copy_cmd-IsCopied_back sign u.fw_data_buf (start sign u g) (size sign u g) 0
          (blank sign u g) 0 p copies in
      (
        within,
        omega (
          arith,
          copy_cmd-fits sign u.fw_data_buf (start sign u g) (size sign u g) 0 (blank sign u g) 0 p
              (omega arith) copies,
        ),
        few,
        subst (λ c. (c ≢ 2) ⊎ Computes u.fw_data_len g) (code_byte p c) computes,
      )

  begin_cmd_returns : Fits → (r : Updater × Globals) × (begin_cmd sign u g ≡ some r)
  unfolding begin_cmd
  begin_cmd_returns (within, inside, few, computes) =
      let c =
        copy_cmd-IsCopied sign u.fw_data_buf (start sign u g) (size sign u g) 0 (blank sign u g) 0
          (omega arith) (omega arith) in
      let (r, rest) =
        rest_of_defined (c.out, c.sum)
          (subst (λ c. (c ≢ 2) ⊎ Computes u.fw_data_len g)
            (sym (
              code_byte (c.out, c.sum)
                (subst
                  (IsCopied sign u.fw_data_buf (start sign u g) (size sign u g) 0 (blank sign u g)
                    0)
                  c.returns c)))
            computes)
          few in
      (r, rw (lt→ltb _ _ within, c.returns) rest)

  -- What is left of the image, after the command.
  abbrev pub remain_after : ℤ
  remain_after =
      if cmd_byte sign u g 4 == 2
      then u.remain_data_len -ℤ pos (size sign u g)
      else u.remain_data_len

  rest_of-remain :
      (p : (ℕ → ℕ) × ℕ) (r : Updater × Globals)
      → rest_of sign u g p ≡ some r
      → r.0.remain_data_len
        ≡ (if p.0 5 == 2 then u.remain_data_len -ℤ pos (size sign u g) else u.remain_data_len)
  rest_of-remain p r h =
      elim (Option-cases (note_data_cmd sign (cut sign u g p) (recount sign u g))) [
        | inl e ↦ absurd (none-ne-some r (rw e at h))
        | inr (q, e) ↦
            fill_crc-remain sign q.0 q.1 {u' = r.0} {g' = r.1} (rw e at h)
            ∙ note_data_cmd-remain sign (cut sign u g p) (recount sign u g) {u' = q.0} {g' = q.1} e
      ]

  begin_cmd-remain :
      (r : Updater × Globals) → begin_cmd sign u g ≡ some r → r.0.remain_data_len ≡ remain_after
  begin_cmd-remain r h =
      let (p, copies, rest) = begin_cmd_parts sign u g r h in
      let c =
        copy_cmd-IsCopied_back sign u.fw_data_buf (start sign u g) (size sign u g) 0
          (blank sign u g) 0 p copies in
      rest_of-remain p r rest ∙ rw (code_byte p c) refl

  -- The code up to FLAG_RETRY_CMD returns, and leaves `total_cmd_num` and `remain_data_len` in the
  -- range of an `int`, exactly when the next command lies in the image's array and has 1021 bytes at
  -- most, the commands counted with this one are in that range, what is left of the image without this
  -- one, if it is a data command, is too, and either it is no data command or the progress can be
  -- computed: the product fits an int, and the image is not empty.
  pub begin_cmd_defined_iff :
      ((r : Updater × Globals) × (begin_cmd sign u g ≡ some r)
        × CountersFit r.1.total_cmd_num r.0.remain_data_len)
      ↔ (Fits × CountersFit (g.total_cmd_num + 1) remain_after)
  begin_cmd_defined_iff = (
    λ (r, h, counted). (
      begin_cmd-Fits r h,
      subst₂ CountersFit (begin_cmd-IsNext sign u g r.0 r.1 h).counted (begin_cmd-remain r h)
          counted,
    ),
    λ (fits, counted).
        let (r, h) = begin_cmd_returns fits in
        (
          r,
          h,
          subst₂ CountersFit (sym (begin_cmd-IsNext sign u g r.0 r.1 h).counted)
              (sym (begin_cmd-remain r h)) counted,
        ),
  )
