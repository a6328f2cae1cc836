-- ===== src/Ota/Reader/Laws.antt =====
-- What `hidRead` makes of a response.
use bt_ota_bluez_api.Common.{
  ℕ, ◌+◌, ◌*◌, ◌≤◌, ◌<◌, ◌≡◌, ◌≢◌, refl, ◌↔◌, ◌⊎◌, true, none, some, List, [], ◌∷◌, arith, get_or,
  length, length-append, CharSign, Bool-cases, inl, inr, sym, ap, ◌∙◌, ==_iff, ◌==◌,
}
use bt_ota_bluez_api.Common.{promote}
use bt_ota_bluez_api.Common.Hex.{print_hex, length-print_hex}
use bt_ota_bluez_api.Ota.Protocol.{
  start_cmd_code, data_cmd_code, finish_cmd_code, success, no_need_update, stage_err_retry,
  stage_complete, stage_next_cmd, stage_retrying, f_rid, f_r_cmd, f_r_seq0, f_r_seq1, f_r_stat,
}
use bt_ota_bluez_api.Ota.Globals.{Globals}
use bt_ota_bluez_api.Ota.Log.{log_item-eq-none}
use bt_ota_bluez_api.Ota.Reader.{
  seq_of, on_response, on_read, dump_response, dump_item, copy_response, stage_after,
}

-- A field of the response that was copied last.
abbrev pub field : Globals → ℕ → ℕ
field g i = get_or g.rsp_cmd i 0

abbrev pub rsp_seq : CharSign → Globals → ℕ
rsp_seq sign g = seq_of sign (field g f_r_seq0) (field g f_r_seq1)

-- The response answers a start command, or the data command that was sent last.
abbrev pub Answers : CharSign → Globals → Type 0
Answers sign g =
    (field g f_r_cmd ≡ start_cmd_code)
    ⊎ ((field g f_r_cmd ≡ data_cmd_code) × (rsp_seq sign g ≡ g.current_data_seq))

abbrev pub IsKnown : Globals → Type 0
IsKnown g =
    (field g f_r_cmd ≡ start_cmd_code)
    ⊎ (field g f_r_cmd ≡ data_cmd_code)
    ⊎ (field g f_r_cmd ≡ finish_cmd_code)

-- While a command waits for its response, the three ways on: the next command exactly for a
-- successful answer to a start command, or to a data command by the number expected, which is 0
-- when no data command is waited for; the end exactly for a
-- finish response that is a success, or one of any command that says no update is needed, data
-- commands by their number; another try exactly for a known command whose status is another, or for
-- a data response with a wrong number. Only report id 2 counts.
pub on_response_iff :
    (sign : CharSign) (g : Globals)
    → g.ota_stage ≡ stage_retrying
    → let stage = (on_response sign g).ota_stage in
      ((stage ≡ stage_next_cmd)
        ↔ ((field g f_rid ≡ 2) × (field g f_r_stat ≡ success) × Answers sign g))
      × ((stage ≡ stage_complete) ↔ (
          (field g f_rid ≡ 2)
          × (((field g f_r_cmd ≡ finish_cmd_code) × (field g f_r_stat ≡ success))
              ⊎ ((field g f_r_stat ≡ no_need_update)
                  × (Answers sign g ⊎ (field g f_r_cmd ≡ finish_cmd_code))))))
      × ((stage ≡ stage_err_retry) ↔ (
          (field g f_rid ≡ 2)
          × (((field g f_r_cmd ≡ data_cmd_code) × (rsp_seq sign g ≢ g.current_data_seq))
              ⊎ (IsKnown g × (field g f_r_stat ≢ success) × (field g f_r_stat ≢ no_need_update)))))
unfolding on_response
on_response_iff sign g h = (ground arith, ground arith, ground arith)

-- The text of one byte has five characters at least.
dump_item-ge : (sign : CharSign) (c : ℕ) → 5 ≤ length (dump_item sign c)
unfolding dump_item
dump_item-ge sign c = omega (
  arith,
  length-append (print_hex 2 (promote sign c)) (b' ' ∷ []),
  length-print_hex 2 (promote sign c),
)

dump_response-eq-none :
    (sign : CharSign) (rsp text : List ℕ)
    → length text < 30
    → 30 ≤ length text + 5 * length rsp
    → dump_response sign rsp text ≡ none
unfolding dump_response
dump_response-eq-none sign [] text h k = absurd (omega arith)
dump_response-eq-none sign (c ∷ rsp) text h k =
    log_item-eq-none 30 10 (dump_item sign c) text (dump_response sign rsp)
      λ text' e fits. dump_response-eq-none sign rsp text' fits (omega (arith, dump_item-ge sign c))

-- With the verbose log on, every response that is read overflows the log's buffer.
pub on_read_verbose :
    (sign : CharSign) (bytes : List ℕ) (g : Globals)
    → g.is_verbose_log ≡ true
    → on_read sign bytes g ≡ none
unfolding on_read copy_response
on_read_verbose sign bytes g h =
    rw (h, dump_response-eq-none sign (copy_response 6 0 bytes) [] (omega arith) (omega arith))

-- A read that comes back is the response, handled.
pub on_read-eq-some :
    (sign : CharSign) (bytes : List ℕ) (g g' : Globals)
    → on_read sign bytes g ≡ some g'
    → g' ≡ on_response sign (record g { rsp_cmd = copy_response 6 0 bytes })
unfolding on_read
on_read-eq-some sign bytes g g' h = ground arith

-- A promoted char is a small number only if the char is.
pub promote-small : (sign : CharSign) (c k : ℕ) → k < 128 → promote sign c ≡ k → c ≡ k
promote-small sign c k h e = ground arith

stage_after_next :
    (cmd status seq : ℕ) (g : Globals)
    → g.ota_stage ≢ stage_next_cmd
    → stage_after cmd status seq g ≡ stage_next_cmd
    → (status ≡ success)
      × ((cmd ≡ start_cmd_code) ⊎ ((cmd ≡ data_cmd_code) × (seq ≡ g.current_data_seq)))
stage_after_next cmd status seq g n h = ground arith

stage_after_complete :
    (cmd status seq : ℕ) (g : Globals)
    → g.ota_stage ≢ stage_complete
    → stage_after cmd status seq g ≡ stage_complete
    → ((cmd ≡ finish_cmd_code) × (status ≡ success))
      ⊎ ((status ≡ no_need_update)
          × ((cmd ≡ start_cmd_code)
              ⊎ (cmd ≡ finish_cmd_code)
              ⊎ ((cmd ≡ data_cmd_code) × (seq ≡ g.current_data_seq))))
stage_after_complete cmd status seq g n h = ground arith

-- The stage stays, or it is one of three with its reason.
pub stage_after-cases :
    (cmd status seq : ℕ) (g : Globals)
    → (stage_after cmd status seq g ≡ g.ota_stage)
      ⊎ ((stage_after cmd status seq g ≡ stage_next_cmd)
          × (status ≡ success)
          × ((cmd ≡ start_cmd_code) ⊎ ((cmd ≡ data_cmd_code) × (seq ≡ g.current_data_seq))))
      ⊎ ((stage_after cmd status seq g ≡ stage_complete)
          × (((cmd ≡ finish_cmd_code) × (status ≡ success))
              ⊎ ((status ≡ no_need_update)
                  × (((cmd ≡ start_cmd_code) ⊎ ((cmd ≡ data_cmd_code) × (seq ≡ g.current_data_seq)))
                      ⊎ (cmd ≡ finish_cmd_code)))))
      ⊎ ((stage_after cmd status seq g ≡ stage_err_retry)
          × (((cmd ≡ data_cmd_code) × (seq ≢ g.current_data_seq))
              ⊎ ((status ≢ success) × (status ≢ no_need_update))))
stage_after-cases cmd status seq g = ground arith

-- A response sets the stage only under report id 2.
pub on_response-cases :
    (sign : CharSign) (g : Globals)
    → ((field g f_rid ≡ 2)
        × ((on_response sign g).ota_stage
            ≡ stage_after
                (promote sign (field g f_r_cmd))
                (promote sign (field g f_r_stat))
                (rsp_seq sign g)
                g))
      ⊎ (on_response sign g ≡ g)
unfolding on_response
on_response-cases sign g = elim (Bool-cases (promote sign (field g f_rid) == 2)) [
  | inl e ↦ inl (
    promote-small sign (field g f_rid) 2 (omega arith)
        ((==_iff (promote sign (field g f_rid)) 2).0 e),
    rw e refl,
  )
  | inr e ↦ inr (rw e refl)
]

-- The responses that lead to the next command, from any other stage.
pub on_response_next :
    (sign : CharSign) (g : Globals)
    → g.ota_stage ≢ stage_next_cmd
    → (on_response sign g).ota_stage ≡ stage_next_cmd
    → (field g f_rid ≡ 2) × (field g f_r_stat ≡ success) × Answers sign g
on_response_next sign g n h = elim (on_response-cases sign g) [
  | inr same ↦ absurd (n (sym (ap (λ (x : Globals). x.ota_stage) same) ∙ h))
  | inl (rid, e) ↦
      let (ok, way) = stage_after_next _ _ _ g n (sym e ∙ h) in
      (
        rid,
        promote-small sign (field g f_r_stat) 0 (omega arith) ok,
        elim way [
          | inl c ↦ inl (promote-small sign (field g f_r_cmd) 1 (omega arith) c)
          | inr (c, q) ↦ inr (promote-small sign (field g f_r_cmd) 2 (omega arith) c, q)
        ],
      )
]

-- Those that end the update, from any other stage.
pub on_response_complete :
    (sign : CharSign) (g : Globals)
    → g.ota_stage ≢ stage_complete
    → (on_response sign g).ota_stage ≡ stage_complete
    → (field g f_rid ≡ 2)
      × (((field g f_r_cmd ≡ finish_cmd_code) × (field g f_r_stat ≡ success))
          ⊎ ((field g f_r_stat ≡ no_need_update)
              × (Answers sign g ⊎ (field g f_r_cmd ≡ finish_cmd_code))))
on_response_complete sign g n h = elim (on_response-cases sign g) [
  | inr same ↦ absurd (n (sym (ap (λ (x : Globals). x.ota_stage) same) ∙ h))
  | inl (rid, e) ↦ (
    rid,
    elim (stage_after_complete (promote sign (field g f_r_cmd)) (promote sign (field g f_r_stat))
        (rsp_seq sign g) g n (sym e ∙ h)) [
          | inl (c, ok) ↦ inl (is_cmd 3 (omega arith) c, is_status 0 (omega arith) ok)
          | inr (nn, inl c) ↦
              inr (is_status 2 (omega arith) nn, inl (inl (is_cmd 1 (omega arith) c)))
          | inr (nn, inr (inl c)) ↦
              inr (is_status 2 (omega arith) nn, inr (is_cmd 3 (omega arith) c))
          | inr (nn, inr (inr (c, q))) ↦
              inr (is_status 2 (omega arith) nn, inl (inr (is_cmd 2 (omega arith) c, q)))
        ],
  )
]
  where
    is_cmd : (k : ℕ) → k < 128 → promote sign (field g f_r_cmd) ≡ k → field g f_r_cmd ≡ k
    is_cmd = promote-small sign (field g f_r_cmd)

    is_status : (k : ℕ) → k < 128 → promote sign (field g f_r_stat) ≡ k → field g f_r_stat ≡ k
    is_status = promote-small sign (field g f_r_stat)
