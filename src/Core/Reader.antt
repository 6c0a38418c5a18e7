-- ===== src/Core/Reader.antt =====
-- BinaryReader (src/core/binary_reader.cpp, include/rive/core/binary_reader.hpp) and the casts of
-- include/rive/core/type_conversions.hpp.
-- `m_Bytes` is a list and `m_Position` an offset into it, which wraps at 2 ^ 64 as the pointer does; an
-- offset from 2 ^ 63 on would stand in front of the buffer. A buffer is shorter than 2 ^ 31 bytes,
-- which the `int` of `decode_string` counts, and there is memory for any std::vector that is not
-- longer than its max_size.
pub mod Valid
pub mod Keeps
pub mod Varint
pub mod Span
pub mod Behind
use rive_cpp_legacy.Prelude.{
  ℕ, ◌+◌, ◌-◌, ◌*◌, ◌%◌, ◌^◌, Bool, true, false, ◌||◌, List, [], ◌∷◌, Option, none, some, leb, ltb,
  ◌==◌, if◌then◌else◌, length, take, drop,
}
use rive_cpp_legacy.Prelude.Int.{ℤ, pos, negsuc, ◌≤ℤ◌, leb_ℤ}
use rive_cpp_legacy.Core.Leb.{Decoded, decode_uint_leb}
use rive_cpp_legacy.Core.Words.{decode_float, decode_uint_32}

pub record Reader : Type 0 where
  pub bytes : List ℕ
  pub position : ℕ
  pub overflowed : Bool
  pub int_range_error : Bool

-- A call that reads returns its value and the new state; `none` is undefined behaviour or an
-- exception.
abbrev pub M : Type 0 → Type 0
M A = Reader → Option (A × Reader)

-- The next part of a call runs on the state that the first one left.
abbrev pub continue_with : {A B : Type 0} → Option (A × Reader) → (A → M B) → Option (B × Reader)
continue_with none next = none
continue_with (some (a, r)) next = next a r

infixl 5 ◌>>=◌
abbrev pub ◌>>=◌ : {A B : Type 0} → M A → (A → M B) → M B
first >>= next = λ r. continue_with (first r) next

-- The constructor, and `reset`, which leaves the two flags as they are.
unfoldable pub reader : List ℕ → Reader
reader bytes = record { bytes = bytes; position = 0; overflowed = false; int_range_error = false }

pub reset : Reader → Reader
reset r = record r { position = 0 }

-- `m_Bytes.end()`, as an offset, and what lies between the position and the end.
abbrev pub end : Reader → ℕ
end r = length r.bytes

abbrev pub ahead : Reader → List ℕ
ahead r = drop r.position r.bytes

unfoldable pub has_error : Reader → Bool
has_error r = r.overflowed || r.int_range_error

unfoldable pub reached_end : Reader → Bool
reached_end r = r.position == length r.bytes || r.overflowed || r.int_range_error

unfoldable pub overflow : Reader → Reader
overflow r = record r { overflowed = true; position = length r.bytes }

unfoldable pub set_int_range_error : Reader → Reader
set_int_range_error r = record r { int_range_error = true; position = length r.bytes }

unfoldable pub read_var_uint64 : M ℕ
unfolding overflow
read_var_uint64 r = elim (decode_uint_leb (ahead r)) [
  | Decoded.short ↦ some (0, overflow r)
  | Decoded.undefined ↦ none
  | Decoded.read value n ↦ some (value, record r { position = r.position + n })
]

-- The bytes that `decode_string` says it read, and the characters it stored.
unfoldable pub decode_string : ℕ → Reader → ℕ × List ℕ
decode_string str_len r =
    if ltb (length r.bytes) (r.position + str_len)
    then (0, [])
    else (str_len, take str_len (ahead r))

-- `rawValue` has `length + 1` elements modulo 2 ^ 64: its constructor throws std::length_error above
-- 2 ^ 63 - 1 of them, and if there are none there is no first element to point to.
unfoldable pub read_string : M (List ℕ)
unfolding read_var_uint64 overflow decode_string
read_string = do
  length ← read_var_uint64
  λ r.
      if r.overflowed
      then some ([], r)
      else if leb (2 ^ 63 - 1) length
      then none
      else let (read_bytes, chars) = decode_string length r in
        if read_bytes == length
        then some (chars, record r { position = r.position + read_bytes })
        else some ([], overflow r)

-- A span into the buffer.
pub record Slice : Type 0 where
  pub start : ℕ
  pub size : ℕ

-- The position is added to without a look at the end of the buffer, and wraps; `none` stands for a
-- position in front of the buffer.
unfoldable pub read_bytes : M Slice
unfolding read_var_uint64
read_bytes = do
  length ← read_var_uint64
  λ r.
      if r.overflowed
      then some (record { start = r.position; size = 0 }, r)
      else let moved = (r.position + length) % 2 ^ 64 in
        if ltb moved (2 ^ 63)
        then some (record { start = r.position; size = length }, record r { position = moved })
        else none

-- `big` is what `is_big_endian` answers.
unfoldable pub read_float32 : Bool → M ℕ
unfolding overflow
read_float32 big r = elim (decode_float big (ahead r)) [
  | none ↦ some (0, overflow r)
  | some value ↦ some (value, record r { position = r.position + 4 })
]

unfoldable pub read_byte : M ℕ
unfolding overflow
read_byte r = elim (ahead r) [
  | [] ↦ some (0, overflow r)
  | b ∷ rest ↦ some (b, record r { position = r.position + 1 })
]

unfoldable pub read_uint32 : Bool → M ℕ
unfolding overflow
read_uint32 big r = elim (decode_uint_32 big (ahead r)) [
  | none ↦ some (0, overflow r)
  | some value ↦ some (value, record r { position = r.position + 4 })
]

-- The integer types T of `readVarUintAs<T>`.
pub data Width : Type 0 where
  as_uint16 as_uint32 as_int : Width

-- A uint64_t passed as intmax_t.
unfoldable pub to_intmax : ℕ → ℤ
to_intmax x = if ltb x (2 ^ 63) then pos x else negsuc (2 ^ 64 - x - 1)

abbrev pub lowest : Width → ℤ
lowest as_uint16 = pos 0
lowest as_uint32 = pos 0
lowest as_int = negsuc (2 ^ 31 - 1)

abbrev pub highest : Width → ℤ
highest as_uint16 = pos (2 ^ 16 - 1)
highest as_uint32 = pos (2 ^ 32 - 1)
highest as_int = pos (2 ^ 31 - 1)

unfoldable pub fits_in : Width → ℤ → Bool
fits_in T x = if leb_ℤ (lowest T) x then leb_ℤ x (highest T) else false

-- static_cast<T> of a uint64_t.
unfoldable pub cast : Width → ℕ → ℤ
cast as_uint16 value = pos (value % 2 ^ 16)
cast as_uint32 value = pos (value % 2 ^ 32)
cast as_int value =
    let low = value % 2 ^ 32 in if ltb low (2 ^ 31) then pos low else negsuc (2 ^ 32 - low - 1)

unfoldable pub read_var_uint_as : Width → M ℤ
unfolding read_var_uint64 fits_in to_intmax cast set_int_range_error
read_var_uint_as T = do
  value ← read_var_uint64
  λ r.
      if fits_in T (to_intmax value)
      then some (cast T value, r)
      else some (cast T 0, set_int_range_error r)
