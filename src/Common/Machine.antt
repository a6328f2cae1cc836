-- ===== src/Common/Machine.antt =====
-- C arithmetic: fixed widths, the promotion of a plain `char`, and code that may do something
-- undefined.
use Prim.Native.Nat.{ℕ, ◌+◌}
use mathlib.Core.Bool.{Bool, true, false}
use mathlib.Core.Option.{Option, none, some}
use bt_ota_bluez_api.Common.Compare.{ltb, if◌then◌else◌}

-- Whether a plain `char` is unsigned (as on ARM) or signed (as on x86): the compiler's choice.
pub data CharSign : Type 0 where
  unsigned_char signed_char : CharSign

-- A `char` is kept as its byte. This is the 32-bit pattern of the `int` that it is promoted to.
abbrev pub promote : CharSign → ℕ → ℕ
promote unsigned_char c = c
promote signed_char c = if ltb c 128 then c else 0xffffff00 + c

-- A computation that may do something undefined, such as an access out of bounds: `none`.
infixl 5 ◌>>=◌ ◌>>◌
abbrev pub ◌>>=◌ {ℓ κ} : {A : Type ℓ} {B : Type κ} → Option A → (A → Option B) → Option B
none >>= f = none
some a >>= f = f a

abbrev pub ◌>>◌ {ℓ} : {B : Type ℓ} → Option (Unit {0}) → Option B → Option B
none >> k = none
some _ >> k = k

-- Goes on only where the test holds.
abbrev pub check : Bool → Option (Unit {0})
check true = some tt
check false = none
