-- ===== src/Sdp/Quirk.antt =====
-- `epox_endian_quirk` of jni/sdp.c: two numbers of a keyboard's report descriptor are put right.
pub mod Laws
pub mod Bytes
pub mod Kept
pub mod Reference
use bt_ota_bluez_api.Common.{
  ℕ, zero, suc, ◌+◌, ◌-◌, ◌%◌, ◌^◌, Bool, true, false, Option, some, List, [], ◌∷◌, leb, ◌==◌,
  if◌then◌else◌, get_or, set, length, ◌>>◌, check,
}

abbrev pub pattern : List ℕ
pattern = 0x05 ∷ 0x07 ∷ 0x19 ∷ 0x00 ∷ 0x2a ∷ 0x00 ∷ 0xff ∷ 0x15 ∷ 0x00 ∷ 0x26 ∷ 0x00 ∷ 0xff ∷ []

-- `!memcmp(data + i, pattern, sizeof(pattern))`, the access apart.
unfoldable pub matches : List ℕ → List ℕ → ℕ → Bool
matches [] bytes i = true
matches (p ∷ ps) bytes i =
    let rest = matches ps bytes (i + 1) in if get_or bytes i 0 == p then rest else false

-- The four writes.
abbrev pub swap_at : ℕ → List ℕ → List ℕ
swap_at i bytes = set (set (set (set bytes (i + 5) 0xff) (i + 6) 0x00) (i + 10) 0xff) (i + 11) 0x00

-- The loop, with the rounds left. `memcmp` may not look past the end of the data.
unfoldable pub quirk_loop : ℕ → ℕ → List ℕ → Option (List ℕ)
unfolding matches
quirk_loop zero i bytes = some bytes
quirk_loop (suc left) i bytes = do
  check (leb (i + 12) (length bytes))
  quirk_loop left (i + 1) (if matches pattern bytes i then swap_at i bytes else bytes)

-- `size - sizeof(pattern)`: the int is converted to a `size_t` of `w` bits, and the difference wraps.
-- The counter is an `unsigned int`, as wide as a `size_t` on the 32-bit machines that this is built for.
abbrev pub quirk_bound : ℕ → ℕ
quirk_bound size = (size + 2 ^ 32 - 12) % 2 ^ 32

-- The data are not null, and `size` is their length.
unfoldable pub epox_endian_quirk : List ℕ → Option (List ℕ)
unfolding quirk_loop
epox_endian_quirk bytes = quirk_loop (quirk_bound (length bytes)) 0 bytes
