-- ===== src/Core/Words/RoundTrip.antt =====
-- Values of fixed width, written on one host and read on another.
use rive_cpp_legacy.Prelude.{
  ℕ, ◌+◌, ◌*◌, ◌/◌, ◌%◌, ◌^◌, ◌<◌, ◌≡◌, Bool, true, false, List, ◌++◌, some, arith, if◌then◌else◌,
}
use rive_cpp_legacy.Core.Words.{
  decode_float, decode_double, decode_uint_32, write_float, write_double, write_uint32,
}

-- A float keeps its bits between hosts of either byte order.
decode_float-write_float :
    (writer reader : Bool) (value : ℕ) (rest : List ℕ)
    → value < 2 ^ 32
    → decode_float reader (write_float writer value ++ rest) ≡ some value
unfolding decode_float write_float
decode_float-write_float false false value rest h = ground arith
decode_float-write_float false true value rest h = ground arith
decode_float-write_float true false value rest h = ground arith
decode_float-write_float true true value rest h = ground arith

-- A double is read back with its bits unchanged, between hosts of either byte order.
decode_double-write_double :
    (writer reader : Bool) (value : ℕ) (rest : List ℕ)
    → value < 2 ^ 64
    → decode_double reader (write_double writer value ++ rest) ≡ some value
unfolding decode_double write_double
decode_double-write_double false false value rest h = ground arith
decode_double-write_double false true value rest h = ground arith
decode_double-write_double true false value rest h = ground arith
decode_double-write_double true true value rest h = ground arith

-- The value of four bytes in the other order.
abbrev pub swapped : ℕ → ℕ
swapped v =
    v / 2 ^ 24 + 2 ^ 8 * (v / 2 ^ 16 % 256) + 2 ^ 16 * (v / 2 ^ 8 % 256) + 2 ^ 24 * (v % 256)

-- A uint32_t is read back as it was written on a little-endian host, and with its bytes swapped
-- from a big-endian one, since only the reader takes the byte order into account.
pub decode_uint_32-write_uint32 :
    (writer reader : Bool) (value : ℕ) (rest : List ℕ)
    → value < 2 ^ 32
    → decode_uint_32 reader (write_uint32 writer value ++ rest)
      ≡ some (if writer then swapped value else value)
unfolding decode_uint_32 write_uint32
decode_uint_32-write_uint32 false false value rest h = ground arith
decode_uint_32-write_uint32 false true value rest h = ground arith
decode_uint_32-write_uint32 true false value rest h = ground arith
decode_uint_32-write_uint32 true true value rest h = ground arith
