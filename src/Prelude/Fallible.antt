-- ===== src/Prelude/Fallible.antt =====
-- Steps that may fail: `none` is a read outside an array or of a value never set.
use rive_cpp_legacy.Prelude.{Option, none, some}

infixl 5 ◌>>=◌
abbrev pub ◌>>=◌ {ℓ κ} : {A : Type ℓ} {B : Type κ} → Option A → (A → Option B) → Option B
none >>= f = none
some a >>= f = f a
