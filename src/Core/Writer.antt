-- ===== src/Core/Writer.antt =====
-- VectorBinaryWriter (include/rive/core/vector_binary_writer.hpp) under the calls of BinaryWriter
-- (src/core/binary_writer.cpp).
pub mod Appends
use mathlib.Core.Option
use rive_cpp_legacy.Prelude.{
  ℕ, ◌+◌, ◌-◌, Bool, List, [], ◌∷◌, ◌++◌, Option, none, some, ltb, ◌==◌, if◌then◌else◌, length,
  take, drop, replicate,
}
use rive_cpp_legacy.Core.Leb.{write_var_uint}
use rive_cpp_legacy.Core.Words.{write_float, write_double, write_uint8, write_uint16, write_uint32}

pub record Writer : Type 0 where
  pub write_buffer : List ℕ
  pub start : ℕ
  pub pos : ℕ

-- The constructor, over the vector as it is.
pub writer : List ℕ → Writer
writer buffer = record { write_buffer = buffer; start = length buffer; pos = 0 }

-- `m_WriteBuffer->size() - m_Start` is a size_t; the vector never shrinks.
pub buffer_size : Writer → ℕ
buffer_size w = length w.write_buffer - w.start

-- `buffer()` up to `bufferSize()`.
pub buffer : Writer → List ℕ
buffer w = drop w.start w.write_buffer

-- memcpy over part of a list.
overwrite : List ℕ → ℕ → List ℕ → List ℕ
overwrite xs at bytes = take at xs ++ (bytes ++ drop (at + length bytes) xs)

-- The stream's `write`.
unfoldable pub stream_write : List ℕ → Writer → Writer
unfolding overwrite
stream_write bytes w =
    let end = w.pos in
    let size = length w.write_buffer in
    let resized =
      if ltb size (end + length bytes)
      then w.write_buffer ++ replicate (end + length bytes - size) 0
      else w.write_buffer in
    record w { write_buffer = overwrite resized end bytes; pos = end + length bytes }

-- `write(const uint8_t*, size_t)` of the writer.
unfoldable pub write_bytes : List ℕ → Writer → Writer
unfolding stream_write
write_bytes bytes w = if length bytes == 0 then w else stream_write bytes w

pub clear : Writer → Writer
clear w = record w { pos = 0 }

-- The calls that write, as data. `big` is what `is_big_endian` answers.
pub data Item : Type 0 where
  var_uint float double uint8 uint16 uint32 : ℕ → Item
  raw : List ℕ → Item

-- What each hands to the stream; `none` is a write past the buffer of `writeVarUint`.
unfoldable pub encode : Bool → Item → Option (List ℕ)
encode big (var_uint v) = write_var_uint v
encode big (float v) = some (write_float big v)
encode big (double v) = some (write_double big v)
encode big (uint8 v) = some (write_uint8 big v)
encode big (uint16 v) = some (write_uint16 big v)
encode big (uint32 v) = some (write_uint32 big v)
encode big (raw bytes) = some bytes

unfoldable pub put : Bool → Item → Writer → Option Writer
unfolding encode write_bytes stream_write
put big (raw bytes) w = some (write_bytes bytes w)
put big item w = Option.map (λ bytes. stream_write bytes w) (encode big item)
