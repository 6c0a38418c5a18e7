-- ===== src/Core/Words.antt =====
-- The values of fixed width in include/rive/core/reader.h and src/core/binary_writer.cpp.
-- A float or a double stands for its bit pattern. `big` is what `is_big_endian` answers on the
-- host, whose memory holds the bytes of a value in that order.
pub mod RoundTrip
use mathlib.Core.List.{reverse}
use rive_cpp_legacy.Prelude.{
  ℕ, zero, suc, ◌+◌, ◌*◌, ◌/◌, ◌%◌, ◌^◌, Bool, List, [], ◌∷◌, Option, none, some, leb,
  if◌then◌else◌,
}

-- The value of bytes that stand lowest first.
unfoldable pub from_little : List ℕ → ℕ
from_little [] = 0
from_little (b ∷ bs) = b + 256 * from_little bs

-- `n` bytes of a value, lowest first.
unfoldable pub to_little : ℕ → ℕ → List ℕ
to_little zero value = []
to_little (suc n) value = value % 256 ∷ to_little n (value / 256)

-- memcpy from bytes into a value, and a value seen as bytes.
unfoldable pub load : Bool → List ℕ → ℕ
unfolding from_little
load big bytes = from_little (if big then reverse bytes else bytes)

unfoldable pub store : Bool → ℕ → ℕ → List ℕ
unfolding to_little
store big n value = if big then reverse (to_little n value) else to_little n value

-- In the decoders `none` is the return of 0, and otherwise they return the size.
unfoldable pub decode_double : Bool → List ℕ → Option ℕ
unfolding load
decode_double big (b0 ∷ b1 ∷ b2 ∷ b3 ∷ b4 ∷ b5 ∷ b6 ∷ b7 ∷ rest) = some (
    load big (
      if big
      then b7 ∷ b6 ∷ b5 ∷ b4 ∷ b3 ∷ b2 ∷ b1 ∷ b0 ∷ []
      else b0 ∷ b1 ∷ b2 ∷ b3 ∷ b4 ∷ b5 ∷ b6 ∷ b7 ∷ []))
decode_double big buf = none

unfoldable pub decode_float : Bool → List ℕ → Option ℕ
unfolding load
decode_float big (b0 ∷ b1 ∷ b2 ∷ b3 ∷ rest) =
    some (load big (if big then b3 ∷ b2 ∷ b1 ∷ b0 ∷ [] else b0 ∷ b1 ∷ b2 ∷ b3 ∷ []))
decode_float big buf = none

unfoldable pub decode_uint_8 : List ℕ → Option ℕ
decode_uint_8 [] = none
decode_uint_8 (b ∷ rest) = some b

unfoldable pub decode_uint_32 : Bool → List ℕ → Option ℕ
unfolding load
decode_uint_32 big (b0 ∷ b1 ∷ b2 ∷ b3 ∷ rest) =
    some (load big (if big then b3 ∷ b2 ∷ b1 ∷ b0 ∷ [] else b0 ∷ b1 ∷ b2 ∷ b3 ∷ []))
decode_uint_32 big buf = none

-- What `write(float)` and `writeFloat` hand to the stream, and `write(double)` and `writeDouble`.
unfoldable pub write_float : Bool → ℕ → List ℕ
unfolding store
write_float big value = if big then reverse (store big 4 value) else store big 4 value

unfoldable pub write_double : Bool → ℕ → List ℕ
unfolding store
write_double big value = if big then reverse (store big 8 value) else store big 8 value

-- `write(uint8_t)`, `write(uint16_t)` and `write(uint32_t)`, which pass the memory on as it is.
unfoldable pub write_uint8 : Bool → ℕ → List ℕ
unfolding store
write_uint8 big value = store big 1 value

unfoldable pub write_uint16 : Bool → ℕ → List ℕ
unfolding store
write_uint16 big value = store big 2 value

unfoldable pub write_uint32 : Bool → ℕ → List ℕ
unfolding store
write_uint32 big value = store big 4 value
