-- ===== src/Sdp/Stored/Empty.antt =====
-- A device that is stored without a report descriptor: its line has two spaces in a row.
use mathlib.Core.Path.{subst}
use mathlib.Core.List.{append-nil}
use bt_ota_bluez_api.Common.{
  ℕ, ◌≡◌, refl, sym, ap, ◌∙◌, true, Option, none, some, List, [], ◌∷◌, ◌++◌, arith, length, take,
  ◌>>=◌, Option-cases, inl, inr,
}
use bt_ota_bluez_api.Common.Int.{ℤ, pos}
use bt_ota_bluez_api.Common.Hex.{fixed_hex, length-fixed_hex}
use bt_ota_bluez_api.Common.Scan.{skip_space, scan_hex, scan_word}
use bt_ota_bluez_api.Common.Scan.Printed.{IsWord, fixed_hex-IsWord, scan_word-append}
use bt_ota_bluez_api.Hid.Request.{Request}
use bt_ota_bluez_api.Sdp.Stored.{
  IsLine, TextFiles, Errors, Info, scan_info, bytes_of_hex, store_device_info,
  get_stored_device_info,
}
use bt_ota_bluez_api.Sdp.Stored.Text.{IsValid, digits_of, line}
use bt_ota_bluez_api.Sdp.Stored.Scanned.{scan_hex_space, scan_word_space, scan_4, scan_2}
use bt_ota_bluez_api.Sdp.Stored.RoundTrip.{
  stored-textfile_get, get_stored_device_info-fill, cut_off-with,
}

-- The digits of the flags are taken for the descriptor.
scan_flags :
    (flags : ℕ) (s : List ℕ)
    → scan_word 4095 (fixed_hex 8 flags ++ (b' ' ∷ s)) ≡ some (fixed_hex 8 flags, b' ' ∷ s)
scan_flags flags s =
    word (fixed_hex 8 flags)
      (subst IsWord (append-nil (fixed_hex 8 flags)) (fixed_hex-IsWord 8 flags [] tt))
      (length-fixed_hex 8 flags)
  where
    word :
        (xs : List ℕ)
        → IsWord xs
        → length xs ≡ 8
        → scan_word 4095 (xs ++ (b' ' ∷ s)) ≡ some (xs, b' ' ∷ s)
    word [] h n = absurd (omega arith)
    word (d ∷ xs) h n = scan_word-append 4095 b' ' d xs s h (omega arith) refl

-- What is got back when the name is read as flags, and what is left of it as the name.
abbrev pub misread : Request → Option (ℕ × List ℕ) → Option (ℤ × Request)
misread req none = none
misread req (some (flags, rest)) = some (
  pos 0,
  record req {
    rd_size = 4;
    rd_data = bytes_of_hex (fixed_hex 8 req.flags);
    flags = flags;
    name = take 127 (skip_space rest);
  },
)

-- The scan goes wrong from the descriptor on.
abbrev misread_info : Request → ℕ × List ℕ → Info
misread_info req (flags, rest) = record {
  vendor = req.vendor;
  product = req.product;
  version = req.version;
  subclass = req.subclass;
  country = req.country;
  parser = req.parser;
  desc = fixed_hex 8 req.flags;
  flags = flags;
  rest = skip_space rest;
}

scan_info-empty :
    (req : Request) (v : IsValid req)
    → scan_info (line req v [])
      ≡ (scan_hex 8 req.name >>= λ (r : ℕ × List ℕ). some (misread_info req r))
unfolding scan_info
scan_info-empty req v =
    let (a, b, d, e) = v.words in
    let (f, g) = v.chars in
    rw
      (
        scan_4 req.vendor _ a,
        scan_4 req.product _ b,
        scan_4 req.version _ d,
        scan_hex_space 2,
        scan_2 req.subclass _ f,
        scan_hex_space 2,
        scan_2 req.country _ g,
        scan_hex_space 4,
        scan_4 req.parser _ e,
        scan_word_space 4095,
        scan_word_space 4095,
        scan_flags req.flags,
        scan_hex_space 8,
      )
      refl

get_stored_device_info-none :
    (tf : TextFiles) (create_name : List ℕ → List ℕ) (errors : Errors) (src dst : List ℕ)
    (old : Request) (files : tf.Files) (text : List ℕ)
    → tf.textfile_get (create_name src) dst files ≡ some text
    → scan_info text ≡ none
    → get_stored_device_info tf create_name errors src dst true true old files ≡ none
unfolding get_stored_device_info
get_stored_device_info-none tf create_name errors src dst old files text e h = rw (e, h) refl

-- A device that was stored without an error and without a descriptor is not got back: its flags are
-- taken for a descriptor of four bytes and its name for the flags. If the name does not start with a
-- hexadecimal number, the position of the name is used without being set, and otherwise the result is
-- a success with these fields.
pub get_stored_device_info-empty :
    (tf : TextFiles) (create_name : List ℕ → List ℕ) (errors : Errors) (src dst : List ℕ)
    (req old : Request) (files files' : tf.Files)
    → IsValid req
    → req.rd_data ≡ []
    → IsLine req.name
    → store_device_info tf create_name errors src dst true true req files ≡ some (pos 0, files')
    → get_stored_device_info tf create_name errors src dst true true old files'
      ≡ misread req (scan_hex 8 req.name)
unfolding fixed_hex
get_stored_device_info-empty tf create_name errors src dst req old files files' v empty h stores =
    elim (Option-cases (scan_hex 8 req.name)) [
      | inl e ↦
          get_stored_device_info-none tf create_name errors src dst old files' (line req v []) text
            (scanned ∙ bound none e)
          ∙ ap (misread req) (sym e)
      | inr ((flags, rest), e) ↦
          get_stored_device_info-fill tf create_name errors src dst req v files' old (line req v [])
            (misread_info req (flags, rest)) text (scanned ∙ bound (some (flags, rest)) e)
          ∙ cut_off-with req 4 (bytes_of_hex (fixed_hex 8 req.flags)) flags
              (take 127 (skip_space rest)) v
          ∙ ap (misread req) (sym e)
    ]
  where
    text : tf.textfile_get (create_name src) dst files' ≡ some (line req v [])
    text =
        stored-textfile_get tf create_name errors src dst req v files files' h stores
        ∙ ap (λ bytes. some (line req v (digits_of bytes))) empty

    scanned :
        scan_info (line req v [])
        ≡ (scan_hex 8 req.name >>= λ (r : ℕ × List ℕ). some (misread_info req r))
    scanned = scan_info-empty req v

    bound :
        (r : Option (ℕ × List ℕ))
        → scan_hex 8 req.name ≡ r
        → (scan_hex 8 req.name >>= λ (p : ℕ × List ℕ). some (misread_info req p))
          ≡ (r >>= λ (p : ℕ × List ℕ). some (misread_info req p))
    bound r e =
        ap (λ (o : Option (ℕ × List ℕ)). o >>= λ (p : ℕ × List ℕ). some (misread_info req p)) e
