-- ===== src/Core/Reader/Varint.antt =====
-- Integers read back through the reader, and the ranges of `readVarUintAs`.
use rive_cpp_legacy.Prelude.{
  ℕ, ◌+◌, ◌-◌, ◌^◌, ◌<◌, ◌≡◌, List, ◌++◌, Option, none, some, arith, length, ltb, if◌then◌else◌,
  drop-append,
}
use rive_cpp_legacy.Prelude.Int.{ℤ, pos, negsuc}
use rive_cpp_legacy.Core.Leb.{write_var_uint}
use rive_cpp_legacy.Core.Leb.RoundTrip.{decode_uint_leb-write_var_uint}
use rive_cpp_legacy.Core.Reader.{
  Reader, read_var_uint64, read_var_uint_as, set_int_range_error, Width, as_uint16, as_uint32,
  as_int,
}

-- A reader that stands at an integer which `writeVarUint` wrote returns it, and then stands behind
-- it, with nothing else changed.
pub read_var_uint64-write_var_uint :
    (r : Reader) (value : ℕ) (front back bytes : List ℕ)
    → value < 2 ^ 64
    → write_var_uint value ≡ some bytes
    → r.bytes ≡ front ++ (bytes ++ back)
    → r.position ≡ length front
    → read_var_uint64 r ≡ some (value, record r { position = length front + length bytes })
unfolding read_var_uint64
read_var_uint64-write_var_uint r value front back bytes h w e p =
    let (out, d, _, _, _, back_) = decode_uint_leb-write_var_uint value back h in
    ground (arith, d, back_, drop-append front (bytes ++ back))

-- What `readVarUintAs<T>` makes of the 64-bit value that it read.
abbrev pub as_read : Width → ℕ → Option ℤ
as_read as_uint16 v = if ltb v (2 ^ 16) then some (pos v) else none
as_read as_uint32 v = if ltb v (2 ^ 32) then some (pos v) else none
as_read as_int v =
    if ltb v (2 ^ 31)
    then some (pos v)
    else if ltb v (2 ^ 64 - 2 ^ 31)
    then none
    else some (negsuc (2 ^ 64 - v - 1))

-- `readVarUintAs` returns a value in range of the unsigned types as it is, and 0 with the range
-- error for any other. For `int` it also takes the 2 ^ 31 highest 64-bit values, as negative
-- numbers, since the value passes through a signed type.
pub read_var_uint_as_range :
    (T : Width) (r s : Reader) (v : ℕ)
    → v < 2 ^ 64
    → read_var_uint64 r ≡ some (v, s)
    → read_var_uint_as T r
      ≡ (elim (as_read T v) [ none ↦ some (pos 0, set_int_range_error s) | some x ↦ some (x, s) ])
unfolding read_var_uint_as
read_var_uint_as_range as_uint16 r s v h e = ground (arith, e)
read_var_uint_as_range as_uint32 r s v h e = ground (arith, e)
read_var_uint_as_range as_int r s v h e = ground (arith, e)
