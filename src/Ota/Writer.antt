-- ===== src/Ota/Writer.antt =====
-- `hidWrite` of jni/hidserv.c.
pub mod Laws
use bt_ota_bluez_api.Common.{
  ℕ, ◌+◌, ◌*◌, Bool, Option, some, List, [], ◌∷◌, ◌++◌, if◌then◌else◌, length, CharSign, promote,
  ◌>>=◌,
}
use bt_ota_bluez_api.Common.Int.{ℤ, pos, negsuc, is_negative}
use bt_ota_bluez_api.Common.Hex.{print_hex}
use bt_ota_bluez_api.Ota.Log.{strcat, sprintf}

-- `"%02X "`.
unfoldable pub dump_item : CharSign → ℕ → List ℕ
unfolding print_hex
dump_item sign c = print_hex 2 (promote sign c) ++ (b' ' ∷ [])

-- The verbose log of the bytes: `tmp2` has 10 bytes, and `size` is that of `tmpWrite`.
unfoldable pub dump_bytes : CharSign → ℕ → List ℕ → List ℕ → Option (List ℕ)
unfolding dump_item
dump_bytes sign size [] text = some text
dump_bytes sign size (c ∷ cs) text = do
  tmp2 ← sprintf 10 (dump_item sign c)
  text' ← strcat size text tmp2
  dump_bytes sign size cs text'

-- `-ERR_WRITE`.
abbrev pub minus_err_write : ℤ
minus_err_write = negsuc 5

-- `res` is what `write` returns.
unfoldable pub hid_write : CharSign → Bool → List ℕ → ℤ → Option ℤ
unfolding dump_bytes
hid_write sign verbose write_data res = do
  _ ← if verbose then dump_bytes sign (length write_data * 3) write_data [] else some []
  some (if is_negative res then minus_err_write else pos 0)
