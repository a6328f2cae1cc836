-- ===== src/Sdp/Quirk/Laws.antt =====
-- What the quirk does to a descriptor.
use bt_ota_bluez_api.Common.{ℕ, zero, suc, ◌<◌, ◌≡◌, none, List, arith, length}
use bt_ota_bluez_api.Sdp.Quirk.{quirk_loop, quirk_bound, epox_endian_quirk}

-- A descriptor shorter than the pattern is read past its end: the bound of the loop wraps around.
pub epox_endian_quirk_short : (bytes : List ℕ) → length bytes < 12 → epox_endian_quirk bytes ≡ none
unfolding epox_endian_quirk
epox_endian_quirk_short bytes h = many (quirk_bound (length bytes)) (omega arith)
  where
    many : (left : ℕ) → 0 < left → quirk_loop left 0 bytes ≡ none
    many zero k = absurd (omega arith)
    many (suc left) k = unfold quirk_loop in ground arith
