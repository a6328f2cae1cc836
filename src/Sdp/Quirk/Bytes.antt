-- ===== src/Sdp/Quirk/Bytes.antt =====
-- One byte of the quirk's result, and what a match of the pattern says of the bytes.
use bt_ota_bluez_api.Common.{
  ℕ, zero, suc, ◌+◌, ◌-◌, ◌≤◌, ◌<◌, ◌≡◌, ◌≢◌, refl, inl, inr, Bool, true, false, ◌&&◌, not, List,
  [], ◌∷◌, arith, leb, ltb, ◌==◌, ==_iff, if◌then◌else◌, get_or, length, Bool-cases,
  all_below_sound,
}
use bt_ota_bluez_api.Sdp.Quirk.{pattern, matches}

-- Whether the byte at `k` is at offset `off` of an occurrence that starts below `n`.
abbrev pub hit : (ℕ → Bool) → ℕ → ℕ → ℕ → Bool
hit starts n off k = leb off k && ltb (k - off) n && starts (k - off)

-- The byte at `k` when the occurrences that start below `n` have been put right.
abbrev pub fixed_byte : (ℕ → Bool) → (ℕ → ℕ) → ℕ → ℕ → ℕ
fixed_byte starts old n k =
    if hit starts n 5 k
    then 0xff
    else if hit starts n 6 k
    then 0x00
    else if hit starts n 10 k
    then 0xff
    else if hit starts n 11 k
    then 0x00
    else old k

hit_zero : (starts : ℕ → Bool) (off k : ℕ) → hit starts 0 off k ≡ false
hit_zero starts off k = ground arith

pub fixed_byte-zero : (starts : ℕ → Bool) (old : ℕ → ℕ) (k : ℕ) → fixed_byte starts old 0 k ≡ old k
fixed_byte-zero starts old k =
    rw (hit_zero starts 5 k, hit_zero starts 6 k, hit_zero starts 10 k, hit_zero starts 11 k) refl

module _ (starts : ℕ → Bool) (n : ℕ) where
  hit_other : (off k : ℕ) → k ≢ n + off → hit starts (suc n) off k ≡ hit starts n off k
  hit_other off k h = ground arith

  hit_now : (off k : ℕ) → starts n ≡ true → k ≡ n + off → hit starts (suc n) off k ≡ true
  hit_now off k h e = let at : k - off ≡ n = omega arith in rw (at, h) (ground arith)

  hit_past : (off k : ℕ) → n + off < k → hit starts (suc n) off k ≡ false
  hit_past off k h = ground arith

  pub hit_none : (off k : ℕ) → starts n ≡ false → hit starts (suc n) off k ≡ hit starts n off k
  hit_none off k h = elim (Bool-cases (k - off == n)) [
    | inl e ↦ let at : k - off ≡ n = (==_iff (k - off) n).0 e in rw (at, h) (ground arith)
    | inr e ↦ ground arith
  ]

  module _ (old : ℕ → ℕ) (k : ℕ) where
    -- One more position that is not a start, and one that is.
    pub fixed_byte-suc :
        starts n ≡ false → fixed_byte starts old (suc n) k ≡ fixed_byte starts old n k
    fixed_byte-suc h = rw (hit_none 5 k h, hit_none 6 k h, hit_none 10 k h, hit_none 11 k h) refl

    pub fixed_byte-suc_start :
        starts n ≡ true
        → fixed_byte starts old (suc n) k ≡ (
            if k == n + 11
            then 0x00
            else if k == n + 10
            then 0xff
            else if k == n + 6
            then 0x00
            else if k == n + 5
            then 0xff
            else fixed_byte starts old n k)
    fixed_byte-suc_start h = elim (Bool-cases (k == n + 11)) [
      | inl e ↦
          let at = (==_iff k (n + 11)).0 e in
          rw
            (
              e,
              hit_past 5 k (omega arith),
              hit_past 6 k (omega arith),
              hit_past 10 k (omega arith),
              hit_now 11 k h at,
            )
            refl
      | inr e₁₁ ↦ elim (Bool-cases (k == n + 10)) [
        | inl e ↦
            let at = (==_iff k (n + 10)).0 e in
            rw (e₁₁, e, hit_past 5 k (omega arith), hit_past 6 k (omega arith), hit_now 10 k h at)
              refl
        | inr e₁₀ ↦ elim (Bool-cases (k == n + 6)) [
          | inl e ↦
              let at = (==_iff k (n + 6)).0 e in
              rw (e₁₁, e₁₀, e, hit_past 5 k (omega arith), hit_now 6 k h at) refl
          | inr e₆ ↦ elim (Bool-cases (k == n + 5)) [
            | inl e ↦ let at = (==_iff k (n + 5)).0 e in rw (e₁₁, e₁₀, e₆, e, hit_now 5 k h at) refl
            | inr e₅ ↦
                rw
                  (
                    e₁₁,
                    e₁₀,
                    e₆,
                    e₅,
                    hit_other 5 k (ground arith),
                    hit_other 6 k (ground arith),
                    hit_other 10 k (ground arith),
                    hit_other 11 k (ground arith),
                  )
                  refl
          ]
        ]
      ]
    ]

-- What a match says of the bytes.
pub matches-get_or :
    (ps bytes : List ℕ) (i d : ℕ)
    → matches ps bytes i ≡ true
    → d < length ps
    → get_or bytes (i + d) 0 ≡ get_or ps d 0
unfolding matches
matches-get_or [] bytes i d h k = absurd (omega arith)
matches-get_or (p ∷ ps) bytes i zero h k = let e : i + 0 ≡ i = omega arith in rw e (ground arith)
matches-get_or (p ∷ ps) bytes i (suc d) h k =
    let e : i + suc d ≡ i + 1 + d = omega arith in
    rw e (matches-get_or ps bytes (i + 1) d (ground arith) (omega arith))

pub matches_ext :
    (ps bytes bytes' : List ℕ) (i : ℕ)
    → ((k : ℕ) → i ≤ k → k < i + length ps → get_or bytes k 0 ≡ get_or bytes' k 0)
    → matches ps bytes i ≡ matches ps bytes' i
unfolding matches
matches_ext [] bytes bytes' i h = refl
matches_ext (p ∷ ps) bytes bytes' i h =
    rw
      (
        h i (omega arith) (omega arith),
        matches_ext ps bytes bytes' (i + 1) λ k lo hi. h k (omega arith) (omega arith),
      )
      refl

-- The pattern's first byte stands nowhere else in it, so occurrences do not overlap.
pub first_only : (d : ℕ) → 0 < d → d < 12 → get_or pattern d 0 ≢ 5
first_only d h k =
    let table =
      all_below_sound 12 (λ i. if i == 0 then true else not (get_or pattern i 0 == 5)) d refl k in
    λ e. ground arith

pub not_first :
    (bytes : List ℕ) (i : ℕ) → (get_or bytes i 0 == 5) ≡ false → matches pattern bytes i ≡ false
unfolding matches
not_first bytes i h = rw h refl

pub not_five :
    (a b c d : Bool) (n : ℕ)
    → (n == 5) ≡ false
    → ((if a then 0xff else if b then 0x00 else if c then 0xff else if d then 0x00 else n) == 5)
      ≡ false
not_five a b c d n h = ground arith
