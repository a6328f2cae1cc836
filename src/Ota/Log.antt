-- ===== src/Ota/Log.antt =====
-- The text buffers that the verbose log fills, with `sprintf` and `strcat`.
use bt_ota_bluez_api.Common.{
  ℕ, ◌+◌, ◌<◌, ◌≡◌, inl, inr, Option, none, some, List, ◌++◌, leb, arith, length, length-append,
  if◌then◌else◌, Bool-cases, ◌>>=◌,
}

-- `strcat` to a text in an array of `size` bytes, the closing NUL counted.
abbrev pub strcat : ℕ → List ℕ → List ℕ → Option (List ℕ)
strcat size text s = if leb (length text + length s + 1) size then some (text ++ s) else none

-- `sprintf` into an array of `size` bytes.
abbrev pub sprintf : ℕ → List ℕ → Option (List ℕ)
sprintf size s = if leb (length s + 1) size then some s else none

-- A log that is sure to overflow after this item overflows.
pub log_item-eq-none :
    (size tmp_size : ℕ) (s text : List ℕ) (rest : List ℕ → Option (List ℕ))
    → ((text' : List ℕ)
        → length text' ≡ length text + length s
        → length text' < size
        → rest text' ≡ none)
    → (sprintf tmp_size s >>= λ tmp2. strcat size text tmp2 >>= rest) ≡ none
log_item-eq-none size tmp_size s text rest h = elim (Bool-cases (leb (length s + 1) tmp_size)) [
  | inr long ↦ rw long
  | inl short ↦ elim (Bool-cases (leb (length text + length s + 1) size)) [
    | inr full ↦ rw (short, full)
    | inl fits ↦
        rw (short, fits)
          (h (text ++ s) (length-append text s) (ground (arith, length-append text s)))
  ]
]
