-- ===== src/Sdp/Stored/RoundTrip.antt =====
-- A device that is stored is got back.
use mathlib.Core.List.{append_assoc}
use mathlib.Core.Path.{subst}
use mathlib.Core.Option.{some-injective}
use bt_ota_bluez_api.Common.{
  ℕ, zero, suc, ◌-◌, ◌/◌, ◌%◌, ◌^◌, ◌≤◌, ◌<◌, ◌≡◌, refl, sym, ap, ◌∙◌, true, Option, some, List, [],
  ◌∷◌, ◌++◌, arith, length, take, take-le,
}
use bt_ota_bluez_api.Common.Int.{ℤ, pos}
use bt_ota_bluez_api.Common.Hex.{hex_digit, fixed_hex}
use bt_ota_bluez_api.Common.Scan.{skip_space}
use bt_ota_bluez_api.Hid.Request.{Request}
use bt_ota_bluez_api.Sdp.Stored.{
  IsLine, TextFiles, Errors, Info, fill, info_size, hex_bytes, scan_info, bytes_of_hex,
  store_device_info, get_stored_device_info,
}
use bt_ota_bluez_api.Sdp.Stored.Text.{
  IsValid, digits_of, hex_bytes-digits_of, length-digits_of, bytes_of_hex-digits_of, line,
  info_text-line, length-line,
}
use bt_ota_bluez_api.Sdp.Stored.Scanned.{info_of, scan_info-line}

fixed_hex-IsLine : (k n : ℕ) (s : List ℕ) → IsLine s → IsLine (fixed_hex k n ++ s)
unfolding fixed_hex
fixed_hex-IsLine zero n s h = h
fixed_hex-IsLine (suc k) n s h =
    subst IsLine (sym (append_assoc (fixed_hex k (n / 16)) (hex_digit (n % 16) ∷ []) s))
      (fixed_hex-IsLine k (n / 16) (hex_digit (n % 16) ∷ s) (ground arith, h))

digits_of-IsLine : (cs s : List ℕ) → IsLine s → IsLine (digits_of cs ++ s)
digits_of-IsLine [] s h = h
digits_of-IsLine (c ∷ cs) s h = (ground arith, (ground arith, digits_of-IsLine cs s h))

line-IsLine :
    (req : Request) (v : IsValid req)
    → IsLine req.name
    → IsLine (line req v (digits_of req.rd_data))
line-IsLine req v h = fixed_hex-IsLine 4 req.vendor _ (
  refl,
  fixed_hex-IsLine 4 req.product _ (
    refl,
    fixed_hex-IsLine 4 req.version _ (
      refl,
      fixed_hex-IsLine 2 req.subclass _ (
        refl,
        fixed_hex-IsLine 2 req.country _ (
          refl,
          fixed_hex-IsLine 4 req.parser _ (
            refl,
            digits_of-IsLine req.rd_data _ (refl, fixed_hex-IsLine 8 req.flags _ (refl, h)),
          ),
        ),
      ),
    ),
  ),
)

take-length : (xs : List ℕ) → take (length xs) xs ≡ xs
take-length [] = refl
take-length (x ∷ xs) = ap (λ ys. x ∷ ys) (take-length xs)

module _ (tf : TextFiles) (create_name : List ℕ → List ℕ) (errors : Errors) (src dst : List ℕ)
    (req : Request) (v : IsValid req) (files : tf.Files) where
  -- The line of the device.
  abbrev pub stored : List ℕ
  stored = line req v (digits_of req.rd_data)

  abbrev pub put : ℤ × tf.Files
  put = tf.textfile_put (create_name src) dst stored (tf.create_file (create_name src) files)

  abbrev put_text : List ℕ → Option (ℤ × tf.Files)
  put_text text =
      some (tf.textfile_put (create_name src) dst text (tf.create_file (create_name src) files))

  -- The line is stored whole: `snprintf` cuts nothing off.
  pub store_device_info-put :
      store_device_info tf create_name errors src dst true true req files ≡ some put
  unfolding store_device_info
  store_device_info-put =
      let (size, bytes) = v.described in
      let whole : take (info_size req - 2) stored ≡ stored =
        ap (λ n. take n stored)
          (sym (
            length-line req v (digits_of req.rd_data) (length-digits_of req.rd_data ∙ omega arith)))
        ∙ take-length stored in
      let digits = ap (λ n. hex_bytes n req.rd_data) size ∙ hex_bytes-digits_of req.rd_data bytes in
      rw digits (
        ap put_text (
          ap (λ t. take (info_size req - 2) t) (info_text-line req v (digits_of req.rd_data))
          ∙ whole))

  -- A line that can be got is filled into the request.
  pub get_stored_device_info-fill :
      (old : Request) (text : List ℕ) (i : Info)
      → tf.textfile_get (create_name src) dst files ≡ some text
      → scan_info text ≡ some i
      → get_stored_device_info tf create_name errors src dst true true old files
        ≡ some (pos 0, record (fill i old) { rd_data = bytes_of_hex i.desc })
  unfolding get_stored_device_info
  get_stored_device_info-fill old text i e h = rw (e, h) refl

-- The text that is got back after a device was stored without an error.
pub stored-textfile_get :
    (tf : TextFiles) (create_name : List ℕ → List ℕ) (errors : Errors) (src dst : List ℕ)
    (req : Request) (v : IsValid req) (files files' : tf.Files)
    → IsLine req.name
    → store_device_info tf create_name errors src dst true true req files ≡ some (pos 0, files')
    → tf.textfile_get (create_name src) dst files' ≡ some (line req v (digits_of req.rd_data))
stored-textfile_get tf create_name errors src dst req v files files' h stores =
    let same : put tf create_name errors src dst req v files ≡ (pos 0, files') =
      some-injective _ (pos 0, files')
        (sym (store_device_info-put tf create_name errors src dst req v files) ∙ stores) in
    ap (tf.textfile_get (create_name src) dst) (sym (ap (λ (r : ℤ × tf.Files). r.1) same))
    ∙ tf.get-put (create_name src) dst (line req v (digits_of req.rd_data))
        (tf.create_file (create_name src) files) (line-IsLine req v h)
        (ap (λ (r : ℤ × tf.Files). r.0) same)

-- A request that has the same descriptor and name is the same.
same_request :
    (req : Request) (size : ℕ) (bytes name : List ℕ)
    → size ≡ req.rd_size
    → bytes ≡ req.rd_data
    → name ≡ req.name
    → (record req { rd_size = size; rd_data = bytes; name = name }) ≡ req
same_request req size bytes name a b c =
    ap (λ n. record req { rd_size = n; rd_data = bytes; name = name }) a
    ∙ ap (λ d. record req { rd_data = d; name = name }) b
    ∙ ap (λ m. record req { name = m }) c

-- The numbers of a valid request are not cut off.
abbrev pub cut_off : Request → Request
cut_off req = record req {
  vendor = req.vendor % 2 ^ 16;
  product = req.product % 2 ^ 16;
  version = req.version % 2 ^ 16;
  subclass = req.subclass % 2 ^ 8;
  country = req.country % 2 ^ 8;
  parser = req.parser % 2 ^ 16;
}

pub cut_off-IsValid : (req : Request) → IsValid req → cut_off req ≡ req
cut_off-IsValid req v =
    let (a, b, c, d) = v.words in
    let (e, f) = v.chars in
    let vendor : req.vendor % 2 ^ 16 ≡ req.vendor = omega arith in
    let product : req.product % 2 ^ 16 ≡ req.product = omega arith in
    let version : req.version % 2 ^ 16 ≡ req.version = omega arith in
    let parser : req.parser % 2 ^ 16 ≡ req.parser = omega arith in
    let subclass : req.subclass % 2 ^ 8 ≡ req.subclass = omega arith in
    let country : req.country % 2 ^ 8 ≡ req.country = omega arith in
    rw (vendor, product, version, parser, subclass, country) refl

pub cut_off-with :
    (req : Request) (size : ℕ) (bytes : List ℕ) (flags : ℕ) (name : List ℕ)
    → IsValid req
    → Path
        (Option (ℤ × Request))
        (some (
          pos 0,
          record (cut_off req) { rd_size = size; rd_data = bytes; flags = flags; name = name },
        ))
        (some (pos 0, record req { rd_size = size; rd_data = bytes; flags = flags; name = name }))
cut_off-with req size bytes flags name v =
    ap
      (λ (r : Request).
        some (pos 0, record r { rd_size = size; rd_data = bytes; flags = flags; name = name }))
      (cut_off-IsValid req v)

-- A device that was stored without an error is got back in full, whatever the request held before:
-- if its fields have the sizes of the kernel's header, its descriptor has 1 to 2047 bytes, and its
-- name is a line of 127 characters at most that does not start with whitespace.
pub get_stored_device_info-store_device_info :
    (tf : TextFiles) (create_name : List ℕ → List ℕ) (errors : Errors) (src dst : List ℕ)
    (req old : Request) (files files' : tf.Files)
    → IsValid req
    → 0 < req.rd_size
    → req.rd_size ≤ 2047
    → IsLine req.name
    → length req.name ≤ 127
    → skip_space req.name ≡ req.name
    → store_device_info tf create_name errors src dst true true req files ≡ some (pos 0, files')
    → get_stored_device_info tf create_name errors src dst true true old files' ≡ some (pos 0, req)
get_stored_device_info-store_device_info tf create_name errors src dst req old files files' v
      some_bytes few h short front stores =
    get_stored_device_info-fill tf create_name errors src dst req v files' old
      (line req v (digits_of req.rd_data)) (info_of req v (digits_of req.rd_data))
      (stored-textfile_get tf create_name errors src dst req v files files' h stores)
      (scanned req.rd_data refl)
    ∙ cut_off-with req (length (digits_of req.rd_data) / 2) (bytes_of_hex (digits_of req.rd_data))
        req.flags (take 127 (skip_space req.name)) v
    ∙ ap (λ (r : Request). some (pos 0, r))
        (same_request req (length (digits_of req.rd_data) / 2)
          (bytes_of_hex (digits_of req.rd_data)) (take 127 (skip_space req.name))
          (omega (arith, length-digits_of req.rd_data, v.described.0))
          (bytes_of_hex-digits_of req.rd_data v.described.1)
          (ap (take 127) front ∙ take-le 127 req.name short))
  where
    scanned :
        (bytes : List ℕ)
        → req.rd_data ≡ bytes
        → scan_info (line req v (digits_of req.rd_data))
          ≡ some (info_of req v (digits_of req.rd_data))
    scanned [] e = absurd (omega (arith, v.described.0, ap (length {A = ℕ}) e))
    scanned (c ∷ cs) e =
        let n : length (c ∷ cs) ≤ 2047 = omega (arith, v.described.0, ap (length {A = ℕ}) e) in
        subst
          (λ bytes.
            scan_info (line req v (digits_of bytes)) ≡ some (info_of req v (digits_of bytes)))
          (sym e) (scan_info-line req v c cs n)
