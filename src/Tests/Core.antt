-- ===== src/Tests/Core.antt =====
-- The binary format at work.
use rive_cpp_legacy.Prelude.{
  ℕ, ◌-◌, ◌^◌, ◌≤◌, ◌≡◌, refl, true, false, List, [], ◌∷◌, ◌++◌, some, arith, length, All, ◌↔◌,
}
use rive_cpp_legacy.Prelude.Int.{negsuc}
use rive_cpp_legacy.Core.Leb.{read, undefined, decode_uint_leb, write_var_uint, IsByte}
use rive_cpp_legacy.Core.Leb.Bounds.{decode_uint_leb_undefined, Continues}
use rive_cpp_legacy.Core.Leb.RoundTrip.{decode_uint_leb-write_var_uint}
use rive_cpp_legacy.Core.Words.{decode_uint_32, write_uint32}
use rive_cpp_legacy.Core.Words.RoundTrip.{decode_uint_32-write_uint32}
use rive_cpp_legacy.Core.Reader.{
  Reader, reader, read_var_uint64, read_var_uint_as, read_bytes, read_string, as_int,
}
use rive_cpp_legacy.Core.Reader.Valid.{
  IsValid, reader-IsValid, Advances, perform, perform-Advances, string,
}
use rive_cpp_legacy.Core.Reader.Varint.{read_var_uint_as_range}
use rive_cpp_legacy.Core.Reader.Span.{Span}
use rive_cpp_legacy.Core.Writer.{Writer, writer, encode, var_uint, stream_write, buffer}
use rive_cpp_legacy.Core.Writer.Appends.{stream_write_over_old}

abbrev bytes_300 : List ℕ
bytes_300 = 0xac ∷ 0x02 ∷ []

write_300 : write_var_uint 300 ≡ some bytes_300
unfolding write_var_uint
write_300 = refl

abbrev more_300 : List ℕ
more_300 = 0xac ∷ 0x02 ∷ 7 ∷ []

read_300 : decode_uint_leb more_300 ≡ read 300 2
unfolding decode_uint_leb
read_300 = refl

abbrev ten : List ℕ → List ℕ
ten t = 0xff ∷ 0xff ∷ 0xff ∷ 0xff ∷ 0xff ∷ 0xff ∷ 0xff ∷ 0xff ∷ 0xff ∷ 0xff ∷ t

ten_undefined : decode_uint_leb (ten (0 ∷ [])) ≡ undefined
unfolding decode_uint_leb
ten_undefined = refl

decode_uint_leb_undefined_example :
    (decode_uint_leb (ten (0 ∷ [])) ≡ undefined) ↔ Continues 10 (ten (0 ∷ []))
decode_uint_leb_undefined_example = decode_uint_leb_undefined (ten (0 ∷ []))

decode_uint_leb-write_var_uint_example :
    (bytes : List ℕ) × (write_var_uint 300 ≡ some bytes)
    × All IsByte bytes
    × (1 ≤ length bytes)
    × (length bytes ≤ 10)
    × (decode_uint_leb (bytes ++ (9 ∷ [])) ≡ read 300 (length bytes))
decode_uint_leb-write_var_uint_example = decode_uint_leb-write_var_uint 300 (9 ∷ []) (omega arith)

decode_uint_32-write_uint32_example :
    decode_uint_32 false (write_uint32 true 0x01020304 ++ []) ≡ some 0x04030201
decode_uint_32-write_uint32_example =
    decode_uint_32-write_uint32 true false 0x01020304 [] (omega arith)

abbrev hi : Reader
hi = record {
  bytes = 2 ∷ 104 ∷ 105 ∷ [];
  position = 0;
  overflowed = false;
  int_range_error = false;
}

abbrev said : Reader
said = record {
  bytes = 2 ∷ 104 ∷ 105 ∷ [];
  position = 3;
  overflowed = false;
  int_range_error = false;
}

perform-hi : perform string hi ≡ some said
unfolding perform read_string read_var_uint64 decode_uint_leb
perform-hi = refl

hi-IsValid : IsValid hi
unfolding reader
hi-IsValid = reader-IsValid (2 ∷ 104 ∷ 105 ∷ [])

perform-Advances_example : Advances hi said
perform-Advances_example = perform-Advances string hi said hi-IsValid perform-hi

abbrev at_300 : Reader
at_300 = record {
  bytes = 1 ∷ 0xac ∷ 0x02 ∷ 7 ∷ [];
  position = 1;
  overflowed = false;
  int_range_error = false;
}

-- The highest 64-bit value in ten bytes.
abbrev at_max : Reader
at_max = record {
  bytes = 0xff ∷ 0xff ∷ 0xff ∷ 0xff ∷ 0xff ∷ 0xff ∷ 0xff ∷ 0xff ∷ 0xff ∷ 1 ∷ [];
  position = 0;
  overflowed = false;
  int_range_error = false;
}

read_var_uint_as_range_example :
    read_var_uint_as as_int at_max ≡ some (negsuc 0, record at_max { position = 10 })
read_var_uint_as_range_example =
    read_var_uint_as_range as_int at_max (record at_max { position = 10 }) (2 ^ 64 - 1)
      (omega arith) max_read
  where
    max_read : read_var_uint64 at_max ≡ some (2 ^ 64 - 1, record at_max { position = 10 })
    max_read = unfold read_var_uint64 decode_uint_leb in refl

-- Five bytes are announced, and one is there.
abbrev cut : Reader
cut = record { bytes = 5 ∷ 104 ∷ []; position = 0; overflowed = false; int_range_error = false }

-- A number of 2 ^ 64 - 1, with which the position goes back to the byte before it.
back_again :
    read_bytes at_max
    ≡ some (record { start = 10; size = 2 ^ 64 - 1 }, record at_max { position = 9 })
unfolding read_bytes read_var_uint64 decode_uint_leb
back_again = refl

abbrev blank : Writer
blank = record { write_buffer = 9 ∷ []; start = 0; pos = 1 }

encode_300 : encode false (var_uint 300) ≡ some bytes_300
unfolding encode write_var_uint
encode_300 = refl

stream_write_over_old_example :
    ((stream_write (1 ∷ 2 ∷ []) (writer (9 ∷ []))).write_buffer ≡ 1 ∷ 2 ∷ [])
    × (buffer (stream_write (1 ∷ 2 ∷ []) (writer (9 ∷ []))) ≡ 2 ∷ [])
stream_write_over_old_example = stream_write_over_old (9 ∷ []) (1 ∷ 2 ∷ []) (omega arith)
