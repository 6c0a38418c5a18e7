-- ===== src/Core/Leb.antt =====
-- The LEB128 integers of include/rive/core/reader.h and of `writeVarUint` in
-- src/core/binary_writer.cpp. A buffer from `buf` to `buf_end` is the list of its bytes.
pub mod Bounds
pub mod RoundTrip
use mathlib.Core.Option
use rive_cpp_legacy.Prelude.{
  ℕ, zero, suc, ◌+◌, ◌*◌, ◌/◌, ◌%◌, ◌^◌, ◌<◌, List, [], ◌∷◌, Option, none, some, leb, ◌==◌,
  if◌then◌else◌, bit_and, bit_or,
}

abbrev pub IsByte : ℕ → Type 0
IsByte b = b < 256

-- `short` is the return of 0 at the end of the buffer. `read value n` stores `value` through `r`
-- and returns `n`. `undefined` is a shift by the width of the operand or more, on which C++ puts
-- no meaning.
pub data Decoded : Type 0 where
  short undefined : Decoded
  read : ℕ → ℕ → Decoded

-- The loop of the two decoders, which differ in the width of `result`. `shift` is a uint8_t.
unfoldable pub leb_loop : ℕ → List ℕ → ℕ → ℕ → ℕ → Decoded
leb_loop width [] shift result n = short
leb_loop width (byte ∷ p) shift result n =
    let result' = bit_or result (bit_and byte 0x7f * 2 ^ shift % 2 ^ width) in
    let rest = leb_loop width p ((shift + 7) % 256) result' (n + 1) in
    if leb width shift
    then undefined
    else if bit_and byte 0x80 == 0
    then read result' (n + 1)
    else rest

unfoldable pub decode_uint_leb : List ℕ → Decoded
unfolding leb_loop
decode_uint_leb buf = leb_loop 64 buf 0 0 0

unfoldable pub decode_uint_leb32 : List ℕ → Decoded
unfolding leb_loop
decode_uint_leb32 buf = leb_loop 32 buf 0 0 0

-- The loop of `writeVarUint`, with the room left in `buffer`. `none` is a write past `buffer[16]`.
unfoldable pub var_uint_loop : ℕ → ℕ → Option (List ℕ)
var_uint_loop zero value = none
var_uint_loop (suc room) value =
    let byte = bit_and value 0x7f in
    let value' = value / 2 ^ 7 in
    let rest = var_uint_loop room value' in
    if value' == 0 then some (byte ∷ []) else Option.map (λ bytes. bit_or byte 0x80 ∷ bytes) rest

-- What `writeVarUint` hands to the stream.
unfoldable pub write_var_uint : ℕ → Option (List ℕ)
unfolding var_uint_loop
write_var_uint value = var_uint_loop 16 value
