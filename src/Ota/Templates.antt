-- ===== src/Ota/Templates.antt =====
-- What `init_cmd` leaves in the three command templates.
use bt_ota_bluez_api.Common.{
  ℕ, zero, suc, ◌+◌, ◌≤◌, ◌≡◌, refl, ◌∙◌, List, arith, get_or, get_or-set, set, length, length-set,
  ◌==◌, if◌then◌else◌, ltb, leb,
}
use bt_ota_bluez_api.Ota.Protocol.{Templates, init_cmd, zero_fields}

length-zero_fields : (n i : ℕ) (xs : List ℕ) → length (zero_fields n i xs) ≡ length xs
length-zero_fields zero i xs = refl
length-zero_fields (suc n) i xs = length-zero_fields n (suc i) (set xs i 0) ∙ length-set xs i 0

get_or-zero_fields :
    (n i : ℕ) (xs : List ℕ) (k : ℕ)
    → i + n ≤ length xs
    → get_or (zero_fields n i xs) k 0
      ≡ (if leb i k then (if ltb k (i + n) then 0 else get_or xs k 0) else get_or xs k 0)
get_or-zero_fields zero i xs k h = ground arith
get_or-zero_fields (suc n) i xs k h = ground (
  arith,
  length-set xs i 0,
  get_or-zero_fields n (suc i) (set xs i 0) k (omega (arith, length-set xs i 0)),
  get_or-set xs i 0 k 0 (omega arith),
)

-- The bytes of the three commands that `init_cmd` sees to.
abbrev pub start_byte : List ℕ → ℕ → ℕ
start_byte old k =
    if k == 0
    then 0xf0
    else if k == 5
    then 1
    else if leb 9 k
    then (if ltb k 22 then 0 else get_or old k 0)
    else get_or old k 0

abbrev pub data_byte : List ℕ → ℕ → ℕ
data_byte old k =
    if k == 0 then 0xf0 else if k == 5 then 0 else if k == 6 then 0 else get_or old k 0

abbrev pub finish_byte : List ℕ → ℕ → ℕ
finish_byte old k = if k == 0 then 0xf0 else if k == 5 then 3 else get_or old k 0

-- The start template gets its report id and its code, and zeros from the size of the firmware to the
-- kind of checksum; the finish template gets its report id and its code; the data template gets its
-- report id, but its code is overwritten with 0, since the sequence number has the same index. The
-- arrays have the sizes of the source, and no other byte changes.
pub init_cmd_lem :
    (t : Templates) (k : ℕ)
    → length t.start_cmd ≡ 24
    → length t.data_cmd ≡ 649
    → length t.finish_cmd ≡ 11
    → let u = init_cmd t in
      (get_or u.start_cmd k 0 ≡ start_byte t.start_cmd k)
      × (get_or u.data_cmd k 0 ≡ data_byte t.data_cmd k)
      × (get_or u.finish_cmd k 0 ≡ finish_byte t.finish_cmd k)
unfolding init_cmd
init_cmd_lem t k a b c = (start, data_bytes, finish)
  where
    start : get_or (init_cmd t).start_cmd k 0 ≡ start_byte t.start_cmd k
    start =
        let l₁ = length-set t.start_cmd 0 0xf0 in
        let l₂ = length-set (set t.start_cmd 0 0xf0) 5 1 in
        let l₃ = length-zero_fields 12 9 (set (set t.start_cmd 0 0xf0) 5 1) in
        ground (
          arith,
          get_or-set (zero_fields 12 9 (set (set t.start_cmd 0 0xf0) 5 1)) 21 0 k 0 (omega arith),
          get_or-zero_fields 12 9 (set (set t.start_cmd 0 0xf0) 5 1) k (omega arith),
          get_or-set (set t.start_cmd 0 0xf0) 5 1 k 0 (omega arith),
          get_or-set t.start_cmd 0 0xf0 k 0 (omega arith),
        )

    data_bytes : get_or (init_cmd t).data_cmd k 0 ≡ data_byte t.data_cmd k
    data_bytes =
        let l₁ = length-set t.data_cmd 0 0xf0 in
        let l₂ = length-set (set t.data_cmd 0 0xf0) 5 2 in
        let l₃ = length-set (set (set t.data_cmd 0 0xf0) 5 2) 5 0 in
        ground (
          arith,
          get_or-set (set (set (set t.data_cmd 0 0xf0) 5 2) 5 0) 6 0 k 0 (omega arith),
          get_or-set (set (set t.data_cmd 0 0xf0) 5 2) 5 0 k 0 (omega arith),
          get_or-set (set t.data_cmd 0 0xf0) 5 2 k 0 (omega arith),
          get_or-set t.data_cmd 0 0xf0 k 0 (omega arith),
        )

    finish : get_or (init_cmd t).finish_cmd k 0 ≡ finish_byte t.finish_cmd k
    finish =
        let l₁ = length-set t.finish_cmd 0 0xf0 in
        ground (
          arith,
          get_or-set (set t.finish_cmd 0 0xf0) 5 3 k 0 (omega arith),
          get_or-set t.finish_cmd 0 0xf0 k 0 (omega arith),
        )
