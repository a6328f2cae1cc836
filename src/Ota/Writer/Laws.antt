-- ===== src/Ota/Writer/Laws.antt =====
-- What `hidWrite` returns, and its log.
use bt_ota_bluez_api.Common.{
  ℕ, ◌+◌, ◌*◌, ◌≤◌, ◌<◌, ◌≡◌, refl, Bool, true, false, none, some, List, [], ◌∷◌, arith, length,
  length-append, CharSign, promote, if◌then◌else◌,
}
use bt_ota_bluez_api.Common.Hex.{print_hex, length-print_hex}
use bt_ota_bluez_api.Common.Int.{ℤ, pos, is_negative}
use bt_ota_bluez_api.Ota.Log.{log_item-eq-none}
use bt_ota_bluez_api.Ota.Writer.{dump_item, dump_bytes, hid_write, minus_err_write}

-- The text of one byte has three characters at least.
dump_item-ge : (sign : CharSign) (c : ℕ) → 3 ≤ length (dump_item sign c)
unfolding dump_item
dump_item-ge sign c = omega (
  arith,
  length-append (print_hex 2 (promote sign c)) (b' ' ∷ []),
  length-print_hex 2 (promote sign c),
)

dump_bytes-eq-none :
    (sign : CharSign) (size : ℕ) (cs text : List ℕ)
    → length text < size
    → size ≤ length text + 3 * length cs
    → dump_bytes sign size cs text ≡ none
unfolding dump_bytes
dump_bytes-eq-none sign size [] text h k = absurd (omega arith)
dump_bytes-eq-none sign size (c ∷ cs) text h k =
    log_item-eq-none size 10 (dump_item sign c) text (dump_bytes sign size cs) λ text' e fits.
      dump_bytes-eq-none sign size cs text' fits (omega (arith, dump_item-ge sign c))

-- With the verbose log off, `hidWrite` returns 0 unless `write` fails, and `-ERR_WRITE` then. With
-- the log on, writing one byte or more overflows the log's buffer.
pub hid_write_lem :
    (sign : CharSign) (write_data : List ℕ) (res : ℤ)
    → (hid_write sign false write_data res
        ≡ some (if is_negative res then minus_err_write else pos 0))
      × (0 < length write_data → hid_write sign true write_data res ≡ none)
unfolding hid_write
hid_write_lem sign write_data res = (
  refl,
  λ h.
      rw
        (dump_bytes-eq-none sign (length write_data * 3) write_data [] (omega arith) (omega arith)),
)

-- What comes back is negative exactly if `write` failed.
pub hid_write-negative :
    (sign : CharSign) (verbose : Bool) (write_data : List ℕ) (res : ℤ) {ret : ℤ}
    → hid_write sign verbose write_data res ≡ some ret
    → is_negative ret ≡ is_negative res
unfolding hid_write
hid_write-negative sign verbose write_data res h = ground arith
