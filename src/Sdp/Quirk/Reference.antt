-- ===== src/Sdp/Quirk/Reference.antt =====
-- The quirk against a description of each byte of its result.
use bt_ota_bluez_api.Common.{
  ℕ, zero, suc, ◌+◌, ◌-◌, ◌^◌, ◌≤◌, ◌<◌, ◌≡◌, ◌≢◌, refl, sym, ap, ◌∙◌, inl, inr, Bool, true, false,
  ◌&&◌, none, some, List, arith, leb, ltb, ◌==◌, ==_iff, if◌then◌else◌, get_or, get_or-set, set,
  length, length-set, Bool-cases,
}
use mathlib.Core.Path.{subst}
use bt_ota_bluez_api.Sdp.Quirk.Laws.{epox_endian_quirk_short}
use bt_ota_bluez_api.Sdp.Quirk.Kept.{length-swap_at}
use bt_ota_bluez_api.Sdp.Quirk.Bytes.{
  hit, fixed_byte, fixed_byte-zero, fixed_byte-suc, fixed_byte-suc_start, matches-get_or,
  matches_ext, first_only, not_first, not_five,
}
use bt_ota_bluez_api.Sdp.Quirk.{
  pattern, matches, swap_at, quirk_loop, quirk_bound, epox_endian_quirk,
}

module _ (bytes : List ℕ) where
  abbrev pub starts : ℕ → Bool
  starts k = matches pattern bytes k

  abbrev pub old : ℕ → ℕ
  old k = get_or bytes k 0

  apart : (j i : ℕ) → starts j ≡ true → j < i → i < j + 12 → old i ≢ 5
  apart j i h lo hi =
      let e : j + (i - j) ≡ i = omega arith in
      let at = matches-get_or pattern bytes j (i - j) h (omega arith) in
      λ five. first_only (i - j) (omega arith) (omega arith) (sym at ∙ ap old e ∙ five)

  hit-false :
      (i off k : ℕ)
      → old i ≡ 5
      → 0 < off
      → off < 12
      → i ≤ k
      → k < i + 12
      → hit starts i off k ≡ false
  hit-false i off k five pos small lo hi = elim (Bool-cases (starts (k - off))) [
    | inr e ↦ rw e (ground arith)
    | inl e ↦ elim (Bool-cases (leb off k && ltb (k - off) i)) [
      | inr f ↦ ground arith
      | inl f ↦ absurd (apart (k - off) i e (ground arith) (omega arith) five)
    ]
  ]

  -- The occurrences that are left to the loop are those of the data it started with.
  same_start :
      (i : ℕ) (now : List ℕ)
      → ((k : ℕ) → get_or now k 0 ≡ fixed_byte starts old i k)
      → matches pattern now i ≡ starts i
  same_start i now h = elim (Bool-cases (old i == 5)) [
    | inl e ↦
        let five = (==_iff (old i) 5).0 e in
        matches_ext pattern now bytes i λ k lo hi.
          h k
          ∙ rw
              (
                hit-false i 5 k five (omega arith) (omega arith) lo (omega arith),
                hit-false i 6 k five (omega arith) (omega arith) lo (omega arith),
                hit-false i 10 k five (omega arith) (omega arith) lo (omega arith),
                hit-false i 11 k five (omega arith) (omega arith) lo (omega arith),
              )
              refl
    | inr e ↦
        not_first now i (
          ap (λ c. c == 5) (h i)
          ∙ not_five (hit starts i 5 i) (hit starts i 6 i) (hit starts i 10 i) (hit starts i 11 i)
              (old i) e)
        ∙ sym (not_first bytes i e)
  ]

  -- A round of the loop, on the data that the rounds before have left.
  abbrev round : ℕ → List ℕ → List ℕ
  round i now = if matches pattern now i then swap_at i now else now

  -- The data after the positions below `i`.
  abbrev FixedBelow : ℕ → List ℕ → Type 0
  FixedBelow i now =
      (length now ≡ length bytes) × ((k : ℕ) → get_or now k 0 ≡ fixed_byte starts old i k)

  get_or-swap_at :
      (i k : ℕ) (now : List ℕ)
      → i + 12 ≤ length now
      → get_or (swap_at i now) k 0 ≡ (
          if k == i + 11
          then 0x00
          else if k == i + 10
          then 0xff
          else if k == i + 6
          then 0x00
          else if k == i + 5
          then 0xff
          else get_or now k 0)
  get_or-swap_at i k now h =
      let l₁ = length-set now (i + 5) 0xff in
      let l₂ = length-set (set now (i + 5) 0xff) (i + 6) 0x00 in
      let l₃ = length-set (set (set now (i + 5) 0xff) (i + 6) 0x00) (i + 10) 0xff in
      rw
        (
          get_or-set (set (set (set now (i + 5) 0xff) (i + 6) 0x00) (i + 10) 0xff) (i + 11) 0x00 k 0
              (omega arith),
          get_or-set (set (set now (i + 5) 0xff) (i + 6) 0x00) (i + 10) 0xff k 0 (omega arith),
          get_or-set (set now (i + 5) 0xff) (i + 6) 0x00 k 0 (omega arith),
          get_or-set now (i + 5) 0xff k 0 (omega arith),
        )
        refl

  round-FixedBelow :
      (i : ℕ) (now : List ℕ)
      → i + 12 ≤ length bytes
      → FixedBelow i now
      → FixedBelow (suc i) (round i now)
  round-FixedBelow i now within (len, h) = elim (Bool-cases (starts i)) [
    | inl e ↦
        let m : matches pattern now i ≡ true = same_start i now h ∙ e in
        rw m (
          length-swap_at i now ∙ len,
          λ k.
              get_or-swap_at i k now (omega arith)
              ∙ rw (h k) (sym (fixed_byte-suc_start starts i old k e)),
        )
    | inr e ↦
        let m : matches pattern now i ≡ false = same_start i now h ∙ e in
        rw m (len, λ k. h k ∙ sym (fixed_byte-suc starts i old k e))
  ]

  quirk_loop-FixedBelow :
      (left i : ℕ) (now : List ℕ)
      → left + i + 12 ≤ length bytes
      → FixedBelow i now
      → (out : List ℕ) × (quirk_loop left i now ≡ some out) × FixedBelow (left + i) out
  unfolding quirk_loop
  quirk_loop-FixedBelow zero i now within h =
      (now, refl, subst (λ n. FixedBelow n now) (omega arith) h)
  quirk_loop-FixedBelow (suc left) i now within h =
      let (out, loops, fixed) = quirk_loop-FixedBelow left (i + 1) (round i now) (omega arith) (
        subst (λ n. FixedBelow n (round i now)) (omega arith)
          (round-FixedBelow i now (omega arith) h)) in
      let fits : leb (i + 12) (length now) ≡ true = ground (arith, h.0) in
      (out, rw fits loops, subst (λ n. FixedBelow n out) (omega arith) fixed)

-- What the quirk makes of a descriptor, byte by byte.
pub epox_endian_quirk-fixed_byte :
    (bytes : List ℕ)
    → 12 ≤ length bytes
    → length bytes < 2 ^ 31
    → (out : List ℕ) × (epox_endian_quirk bytes ≡ some out)
      × (length out ≡ length bytes)
      × ((k : ℕ) → get_or out k 0 ≡ fixed_byte (starts bytes) (old bytes) (length bytes - 12) k)
unfolding epox_endian_quirk
epox_endian_quirk-fixed_byte bytes long short =
    let bound : quirk_bound (length bytes) + 0 ≡ length bytes - 12 = omega arith in
    let (out, loops, (len, fixed)) =
      quirk_loop-FixedBelow bytes (quirk_bound (length bytes)) 0 bytes (omega arith)
        (refl, λ k. sym (fixed_byte-zero (starts bytes) (old bytes) k)) in
    (out, loops, len, λ k. fixed k ∙ ap (λ n. fixed_byte (starts bytes) (old bytes) n k) bound)

-- A descriptor shorter than the pattern is read past its end. On one that is at least as long, the
-- quirk stays inside it, keeps its length, and changes exactly four bytes of each occurrence of the
-- pattern, as it stood in the data at first: the sixth and the eleventh byte become 0xff, the seventh
-- and the twelfth 0x00. An occurrence that ends with the descriptor is left as it is.
pub epox_endian_quirk_lem :
    (bytes : List ℕ)
    → length bytes < 2 ^ 31
    → (length bytes < 12 → epox_endian_quirk bytes ≡ none)
      × (12 ≤ length bytes
          → (out : List ℕ) × (epox_endian_quirk bytes ≡ some out)
            × (length out ≡ length bytes)
            × ((k : ℕ)
                → get_or out k 0 ≡ fixed_byte (starts bytes) (old bytes) (length bytes - 12) k))
epox_endian_quirk_lem bytes short =
    (epox_endian_quirk_short bytes, λ long. epox_endian_quirk-fixed_byte bytes long short)
