-- ===== src/Ota/Update/Reads.antt =====
-- What a turn of the reading thread does to the stage.
use mathlib.Core.Path.{subst}
use mathlib.Core.Option.{none-ne-some, some-injective}
use bt_ota_bluez_api.Common.{
  ℕ, ◌≡◌, refl, sym, ap, ◌∙◌, ◌⊎◌, inl, inr, Bool, true, false, some, List, arith, Option-cases,
  CharSign, Bool-cases, if◌then◌else◌,
}
use bt_ota_bluez_api.Ota.Globals.{Globals}
use bt_ota_bluez_api.Ota.Reader.{ReadResult, read_error, read_bytes, read_round, on_read}
use bt_ota_bluez_api.Ota.Update.State.{System}
use bt_ota_bluez_api.Ota.Update.Steps.{reader_step}

-- What a turn of the reading thread is: it leaves the stage, or it handles a response.
abbrev pub Reads : CharSign → ReadResult → System → System → Type 0
Reads sign r s s' =
    (s'.updater.pc ≡ s.updater.pc)
    × ((s'.globals.ota_stage ≡ s.globals.ota_stage)
        ⊎ ((bytes : List ℕ) × (r ≡ read_bytes bytes)
            × (on_read sign bytes s.globals ≡ some s'.globals)))

-- The branch that a test takes, without the test's value put elsewhere.
pub if_true :
    {A : Type 0} (x y : A) {b : Bool} {z : A} → b ≡ true → (if b then x else y) ≡ z → x ≡ z
if_true x y {z} e h = subst (λ b. (if b then x else y) ≡ z) e h

pub if_false :
    {A : Type 0} (x y : A) {b : Bool} {z : A} → b ≡ false → (if b then x else y) ≡ z → y ≡ z
if_false x y {z} e h = subst (λ b. (if b then x else y) ≡ z) e h

read_round-Reads :
    (sign : CharSign) (r : ReadResult) (g g' : Globals) {on : Bool}
    → read_round sign r g ≡ some (g', on)
    → (g'.ota_stage ≡ g.ota_stage)
      ⊎ ((bytes : List ℕ) × (r ≡ read_bytes bytes) × (on_read sign bytes g ≡ some g'))
unfolding read_round
read_round-Reads sign read_error g g' h = inl (ground arith)
read_round-Reads sign (read_bytes bytes) g g' {on} h = elim (Bool-cases g.flag_read) [
  | inr off ↦ inl (ground arith)
  | inl up ↦
      let k = if_true _ _ up h in
      elim (Option-cases (on_read sign bytes g)) [
        | inl e ↦ absurd (none-ne-some (g', on) (rw e at k))
        | inr (m, e) ↦ inr (
          bytes,
          refl,
          e ∙ ap (λ (p : Globals × Bool). some p.0) (some-injective (m, true) (g', on) (rw e at k)),
        )
      ]
]

pub reader_step-Reads :
    (sign : CharSign) (r : ReadResult) (s s' : System)
    → reader_step sign r s ≡ some s'
    → Reads sign r s s'
unfolding reader_step
reader_step-Reads sign r s s' h = elim (Bool-cases s.reader_running) [
  | inr off ↦
      let e = some-injective s s' (if_false _ _ off h) in
      (
        ap (λ (x : System). x.updater.pc) (sym e),
        inl (ap (λ (x : System). x.globals.ota_stage) (sym e)),
      )
  | inl on ↦
      let k = if_true _ _ on h in
      elim (Option-cases (read_round sign r s.globals)) [
        | inl e ↦ absurd (none-ne-some s' (rw e at k))
        | inr (p, e) ↦
            subst (Reads sign r s)
              (some-injective (record s { globals = p.0; reader_running = p.1 }) s' (rw e at k))
              (refl, read_round-Reads sign r s.globals p.0 {on = p.1} e)
      ]
]
