-- ===== src/Vcdiff/Types.antt =====
-- ably-c/src/delta/vcdiff.h: the results of the decoder.
use ably_connectors.Prelude.{Option, none, some}

-- `ably_vcdiff_error_t`; ABLY_VCDIFF_OK is `ok` below.
pub data VcdiffError : Type 0 where
  invalid_magic secondary_comp custom_table truncated invalid output_full bad_opcode : VcdiffError

-- `undefined` is a run that leaves a buffer, which C gives no meaning. `stuck` is no behaviour of the
-- code: the fuel of a loop of the model ran out.
pub data Result {ℓ} (A : Type ℓ) : Type ℓ where
  ok : A → Result A
  err : VcdiffError → Result A
  undefined : Result A
  stuck : Result A

infixl 5 ◌>>=◌ ◌>>◌
abbrev pub ◌>>=◌ {ℓ κ} : {A : Type ℓ} {B : Type κ} → Result A → (A → Result B) → Result B
ok a >>= f = f a
err e >>= f = err e
undefined >>= f = undefined
stuck >>= f = stuck

abbrev pub ◌>>◌ {ℓ} : {B : Type ℓ} → Result (Unit {0}) → Result B → Result B
m >> k = m >>= λ _. k

-- What an early return turns into an error.
abbrev pub some_or {ℓ} : {A : Type ℓ} → VcdiffError → Option A → Result A
some_or e none = err e
some_or e (some a) = ok a

-- A read of a buffer.
abbrev pub in_bounds {ℓ} : {A : Type ℓ} → Option A → Result A
in_bounds none = undefined
in_bounds (some a) = ok a
