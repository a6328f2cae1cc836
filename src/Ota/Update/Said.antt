-- ===== src/Ota/Update/Said.antt =====
-- What a turn of the reading thread changes of the answer that `OTAStage` stands for.
use bt_ota_bluez_api.Common.{
  ℕ, ◌<◌, ◌≡◌, ◌≢◌, sym, ap, ◌∙◌, ◌⊎◌, inl, inr, some, List, arith, CharSign, promote,
}
use mathlib.Core.Path.{subst}
use bt_ota_bluez_api.Ota.Globals.{Globals}
use bt_ota_bluez_api.Ota.Protocol.{Stage, f_r_cmd, f_r_stat, start_cmd_code, data_cmd_code}
use bt_ota_bluez_api.Ota.Reader.{ReadResult, read_bytes, on_response, copy_response}
use bt_ota_bluez_api.Ota.Reader.Laws.{
  field, rsp_seq, on_read-eq-some, on_response-cases, promote-small, stage_after-cases,
}
use bt_ota_bluez_api.Ota.Update.State.{System}
use bt_ota_bluez_api.Ota.Update.Steps.{reader_step}
use bt_ota_bluez_api.Ota.Update.Reads.{reader_step-Reads}
use bt_ota_bluez_api.Ota.Update.Sender.{Says, success_of, end_of, refusal_of, answer_of}

promote_ne : (sign : CharSign) (c k : ℕ) → promote sign k ≡ k → promote sign c ≢ k → c ≢ k
promote_ne sign c k same n e = n (ap (promote sign) e ∙ same)

-- Small numbers are promoted to themselves.
promote_same : (sign : CharSign) (k : ℕ) → k < 128 → promote sign k ≡ k
promote_same sign k h = ground arith

module _ (sign : CharSign) (bytes : List ℕ) (g : Globals) where
  abbrev heard : Globals
  heard = record g { rsp_cmd = copy_response 6 0 bytes }

  abbrev Said : Stage → Type 0
  Said stage =
      (answer_of stage ≡ answer_of g.ota_stage)
      ⊎ Says sign g.current_data_seq bytes (answer_of stage)

  -- A field as it was promoted.
  abbrev char_at : ℕ → ℕ
  char_at i = promote sign (field heard i)

  is : (i k : ℕ) → k < 128 → char_at i ≡ k → field heard i ≡ k
  is i k small e = promote-small sign (field heard i) k small e

  isnt : (i k : ℕ) → k < 128 → char_at i ≢ k → field heard i ≢ k
  isnt i k small n = promote_ne sign (field heard i) k (promote_same sign k small) n

  abbrev Own : Type 0
  Own = rsp_seq sign heard ≡ g.current_data_seq

  -- A response to a start command, or to the data command.
  answers :
      (char_at f_r_cmd ≡ start_cmd_code) ⊎ ((char_at f_r_cmd ≡ data_cmd_code) × Own)
      → (field heard f_r_cmd ≡ start_cmd_code) ⊎ ((field heard f_r_cmd ≡ data_cmd_code) × Own)
  answers (inl c) = inl (is f_r_cmd 1 (omega arith) c)
  answers (inr (c, own)) = inr (is f_r_cmd 2 (omega arith) c, own)

  on_response-Said : Said (on_response sign heard).ota_stage
  unfolding copy_response
  on_response-Said = elim (on_response-cases sign heard) [
    | inr same ↦ inl (ap (λ (x : Globals). answer_of x.ota_stage) same)
    | inl (rid, e) ↦
        subst Said (sym e)
          (elim (stage_after-cases (char_at f_r_cmd) (char_at f_r_stat) (rsp_seq sign heard)
            heard) [
              | inl kept ↦ inl (ap answer_of kept)
              | inr (inl (at, ok, cmd)) ↦
                  subst Said (sym at)
                    (inr (success_of rid (is f_r_stat 0 (omega arith) ok) (answers cmd)))
              | inr (inr (inl (at, inl (cmd, ok)))) ↦ subst Said (sym at) (
                  inr (
                    end_of rid
                      (inl (is f_r_cmd 3 (omega arith) cmd, is f_r_stat 0 (omega arith) ok))))
              | inr (inr (inl (at, inr (no_need, inl cmd)))) ↦
                  subst Said (sym at) (
                    inr (end_of rid (inr (is f_r_stat 2 (omega arith) no_need, inl (answers cmd)))))
              | inr (inr (inl (at, inr (no_need, inr cmd)))) ↦ subst Said (sym at) (
                  inr (
                    end_of rid (
                      inr (
                        is f_r_stat 2 (omega arith) no_need,
                        inr (is f_r_cmd 3 (omega arith) cmd),
                      ))))
              | inr (inr (inr (at, inl (cmd, other)))) ↦
                  subst Said (sym at)
                    (inr (refusal_of rid (inl (is f_r_cmd 2 (omega arith) cmd, other))))
              | inr (inr (inr (at, inr (bad, need)))) ↦ subst Said (sym at) (
                  inr (
                    refusal_of rid (
                      inr (isnt f_r_stat 0 (omega arith) bad, isnt f_r_stat 2 (omega arith) need))))
            ])
  ]

-- The answer stays, or it is one that a response gives, which is compared with the number expected.
pub reader_step-Says :
    (sign : CharSign) (r : ReadResult) (s s' : System)
    → reader_step sign r s ≡ some s'
    → (answer_of s'.globals.ota_stage ≡ answer_of s.globals.ota_stage)
      ⊎ ((bytes : List ℕ) × (r ≡ read_bytes bytes)
          × Says sign s.globals.current_data_seq bytes (answer_of s'.globals.ota_stage))
reader_step-Says sign r s s' h = elim (reader_step-Reads sign r s s' h).1 [
  | inl kept ↦ inl (ap answer_of kept)
  | inr (bytes, it, read) ↦
      let handled =
        ap (λ (x : Globals). x.ota_stage) (on_read-eq-some sign bytes s.globals s'.globals read) in
      elim (on_response-Said sign bytes s.globals) [
        | inl kept ↦ inl (ap answer_of handled ∙ kept)
        | inr says ↦ inr (
          bytes,
          it,
          subst (λ stage. Says sign s.globals.current_data_seq bytes (answer_of stage))
              (sym handled) says,
        )
      ]
]
