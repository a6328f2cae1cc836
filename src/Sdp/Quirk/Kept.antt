-- ===== src/Sdp/Quirk/Kept.antt =====
-- What the quirk leaves of a descriptor: its length, and that it holds bytes.
use mathlib.Core.Option.{none-ne-some, some-injective}
use mathlib.Core.Path.{subst}
use bt_ota_bluez_api.Common.{
  ℕ, zero, suc, ◌+◌, ◌<◌, ◌≡◌, refl, ◌∙◌, inl, inr, Bool, true, false, some, List, [], ◌∷◌, arith,
  leb, if◌then◌else◌, set, length, length-set, Bytes, Bool-cases,
}
use bt_ota_bluez_api.Sdp.Quirk.{
  pattern, matches, swap_at, quirk_loop, quirk_bound, epox_endian_quirk,
}

set-Bytes : (bytes : List ℕ) (i v : ℕ) → v < 256 → Bytes bytes → Bytes (set bytes i v)
set-Bytes [] i v h b = tt
set-Bytes (c ∷ bytes) zero v h (hc, b) = (h, b)
set-Bytes (c ∷ bytes) (suc i) v h (hc, b) = (hc, set-Bytes bytes i v h b)

pub length-swap_at : (i : ℕ) (bytes : List ℕ) → length (swap_at i bytes) ≡ length bytes
length-swap_at i bytes =
    length-set (set (set (set bytes (i + 5) 0xff) (i + 6) 0x00) (i + 10) 0xff) (i + 11) 0x00
    ∙ length-set (set (set bytes (i + 5) 0xff) (i + 6) 0x00) (i + 10) 0xff
    ∙ length-set (set bytes (i + 5) 0xff) (i + 6) 0x00
    ∙ length-set bytes (i + 5) 0xff

swap_at-Bytes : (i : ℕ) (bytes : List ℕ) → Bytes bytes → Bytes (swap_at i bytes)
swap_at-Bytes i bytes h =
    set-Bytes (set (set (set bytes (i + 5) 0xff) (i + 6) 0x00) (i + 10) 0xff) (i + 11) 0x00
      (omega arith)
      (set-Bytes (set (set bytes (i + 5) 0xff) (i + 6) 0x00) (i + 10) 0xff (omega arith) (
        set-Bytes (set bytes (i + 5) 0xff) (i + 6) 0x00 (omega arith)
          (set-Bytes bytes (i + 5) 0xff (omega arith) h)))

-- The same length, and bytes again.
abbrev pub Kept : List ℕ → List ℕ → Type 0
Kept bytes out = (length out ≡ length bytes) × (Bytes bytes → Bytes out)

round-Kept : (b : Bool) (i : ℕ) (bytes : List ℕ) → Kept bytes (if b then swap_at i bytes else bytes)
round-Kept true i bytes = (length-swap_at i bytes, swap_at-Bytes i bytes)
round-Kept false i bytes = (refl, λ h. h)

quirk_loop-Kept :
    (left i : ℕ) (bytes out : List ℕ) → quirk_loop left i bytes ≡ some out → Kept bytes out
unfolding quirk_loop
quirk_loop-Kept zero i bytes out e = subst (Kept bytes) (some-injective bytes out e) (refl, λ h. h)
quirk_loop-Kept (suc left) i bytes out e = elim (Bool-cases (leb (i + 12) (length bytes))) [
  | inr f ↦ absurd (none-ne-some out (rw f at e))
  | inl f ↦
      let (len, kept) = round-Kept (matches pattern bytes i) i bytes in
      let (len', kept') =
        quirk_loop-Kept left (i + 1) (if matches pattern bytes i then swap_at i bytes else bytes)
          out (rw f at e) in
      (len' ∙ len, λ h. kept' (kept h))
]

pub epox_endian_quirk-Kept :
    (bytes out : List ℕ) → epox_endian_quirk bytes ≡ some out → Kept bytes out
unfolding epox_endian_quirk
epox_endian_quirk-Kept bytes out = quirk_loop-Kept (quirk_bound (length bytes)) 0 bytes out
