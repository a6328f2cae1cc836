-- ===== src/Sdp/DeviceInfo/Names.antt =====
-- The name that `get_sdp_device_info` makes of the three texts.
use mathlib.Core.List.{append_assoc}
use mathlib.Core.Option.{none-ne-some, some-injective}
use mathlib.Core.Path.{subst}
use bt_ota_bluez_api.Common.{
  ℕ, ◌+◌, ◌-◌, ◌≤◌, ◌<◌, ◌≡◌, refl, sym, ap, ◌∙◌, inl, inr, true, false, Option, none, some, List,
  [], ◌∷◌, ◌++◌, arith, ltb, leb, if◌then◌else◌, length, length-append, length-take, length-take_le,
  take-le, take, ◌>>=◌, Bool-cases, Option-cases,
}
use bt_ota_bluez_api.Sdp.DeviceInfo.{name_size, same_prefix, cat, device_name}

cat-fits : (name s : List ℕ) → length name + length s < 128 → cat name s ≡ some (name ++ s)
cat-fits name s h =
    let e : ltb (length name + length s) name_size ≡ true = ground arith in rw e refl

cat-full : (name s : List ℕ) → 128 ≤ length name + length s → cat name s ≡ none
cat-full name s h =
    let e : ltb (length name + length s) name_size ≡ false = ground arith in rw e refl

cat-length : (name s out : List ℕ) → cat name s ≡ some out → length out < 128
cat-length name s out h = elim (Bool-cases (leb 128 (length name + length s))) [
  | inl e ↦ absurd (none-ne-some out (sym (cat-full name s (ground arith)) ∙ h))
  | inr e ↦
      let same = some-injective _ out (sym (cat-fits name s (ground arith)) ∙ h) in
      let few : length name + length s < 128 = ground arith in
      subst (λ t. length t < 128) same (omega (arith, length-append name s))
]

-- The second `strncat`: what is cut off leaves no room for the closing NUL.
cat_rest :
    (start description : List ℕ)
    → length start < 128
    → cat start (take (name_size - length start) description)
      ≡ (if leb 128 (length start + length description) then none else some (start ++ description))
cat_rest start description h = elim (Bool-cases (leb 128 (length start + length description))) [
  | inl e ↦ rw e (
      cat-full start (take (128 - length start) description)
        (omega (arith, length-take (128 - length start) description (ground arith), h)))
  | inr e ↦
      rw (e, take-le (128 - length start) description (ground arith))
        (cat-fits start description (ground arith))
]

-- A provider, a space and the description.
is_full : (a b : ℕ) → 127 ≤ a → leb 128 (a + 1 + b) ≡ true
is_full a b h = ground arith

cat_provider :
    (provider description : List ℕ)
    → (do start ← cat provider (b' ' ∷ []); cat start (take (name_size - length start) description))
      ≡ (if leb 128 (length provider + 1 + length description)
          then none
          else some (provider ++ (b' ' ∷ description)))
cat_provider provider description = elim (Bool-cases (leb 127 (length provider))) [
  | inl f ↦
      let long : 127 ≤ length provider = ground arith in
      rw
        (
          is_full (length provider) (length description) long,
          cat-full provider (b' ' ∷ []) (omega arith),
        )
        refl
  | inr f ↦
      let short : length provider < 127 = ground arith in
      let len = length-append provider (b' ' ∷ []) in
      rw (cat-fits provider (b' ' ∷ []) (omega arith)) (
        cat_rest (provider ++ (b' ' ∷ [])) description (omega (arith, len))
        ∙ rw (len, append_assoc provider (b' ' ∷ []) description) refl)
]

-- The name of a device that gives no service name but a description and a provider, in a request
-- whose name is empty: the description alone if it starts like the provider, and else the first 127
-- characters of the provider, a space and the description. If this has more than 127 characters, the
-- code writes behind the array.
pub device_name_lem :
    (description provider : List ℕ)
    → device_name none (some description) (some provider) [] ≡ (
        if same_prefix 5 description provider
        then (if leb 128 (length description) then none else some description)
        else if leb 128 (length (take 127 provider) + 1 + length description)
        then none
        else some (take 127 provider ++ (b' ' ∷ description)))
unfolding device_name
device_name_lem description provider = elim (Bool-cases (same_prefix 5 description provider)) [
  | inl e ↦ rw e (
      cat_rest [] description (omega arith)
      ∙ ap (λ n. if leb 128 n then none else some description) (omega arith))
  | inr e ↦ rw e (cat_provider (take 127 provider) description)
]

-- A name that is made without an error leaves room for the closing NUL.
pub device_name-length :
    (service description provider : Option (List ℕ)) (name out : List ℕ)
    → length name < 128
    → device_name service description provider name ≡ some out
    → length out < 128
unfolding device_name
device_name-length (some service) description provider name out h e =
    subst (λ t. length t < 128) (some-injective _ out e) (omega (arith, length-take_le 127 service))
device_name-length none none provider name out h e =
    subst (λ t. length t < 128) (some-injective _ out e) h
device_name-length none (some description) none name out h e =
    subst (λ t. length t < 128) (some-injective _ out e)
      (omega (arith, length-take_le 127 description))
device_name-length none (some description) (some provider) name out h e =
    elim (Option-cases (
      if same_prefix 5 description provider
      then some name
      else cat (take (name_size - 1) provider) (b' ' ∷ []))) [
        | inl f ↦ absurd (none-ne-some out (rw f at e))
        | inr (start, f) ↦
            cat-length start (take (name_size - length start) description) out (rw f at e)
      ]
