-- ===== src/Tests/Header.antt =====
-- Witnesses and tests of the file header (include/rive/runtime_header.hpp).
use rive_cpp_legacy.Prelude.{ℕ, ◌≡◌, refl, Bool, true, false, List, [], ◌∷◌, ◌++◌, arith}
use rive_cpp_legacy.Prelude.Int.{ℤ, pos}
use rive_cpp_legacy.Core.Leb.{write_var_uint, decode_uint_leb}
use rive_cpp_legacy.Core.Words.{decode_uint_32}
use rive_cpp_legacy.Core.Reader.{Reader, reader, read_byte, read_var_uint_as, read_uint32}
use rive_cpp_legacy.Importers.Header.{Header, Result, done, exhausted, undefined, fingerprint, read}
use rive_cpp_legacy.Importers.Header.Cut.{read_cut}

abbrev empty : Header
empty = record {
  major_version = pos 0;
  minor_version = pos 0;
  file_id = pos 0;
  property_to_field_index = [];
}

-- Version 7.0 of the file 5, and the keys 21 and 300 with the fields 1 and 2.
abbrev rive_file : List ℕ
rive_file = fingerprint ++ 7 ∷ 0 ∷ 5 ∷ 21 ∷ 172 ∷ 2 ∷ 0 ∷ 9 ∷ 0 ∷ 0 ∷ 0 ∷ []

abbrev fields_of : Result (Bool × Header) → List (ℤ × ℕ)
fields_of exhausted = []
fields_of undefined = []
fields_of (done (ok, h) r) = h.property_to_field_index

read_test : fields_of (read false 20 empty (reader rive_file)) ≡ (pos 300, 2) ∷ (pos 21, 1) ∷ []
unfolding read reader read_byte read_var_uint_as decode_uint_leb read_uint32 decode_uint_32
read_test = refl

read_cut_example :
    (s : Reader) × (read false 1 empty
        (reader (fingerprint ++ ((7 ∷ []) ++ ((0 ∷ []) ++ (5 ∷ [])))))
      ≡ done
          (true, record empty { major_version = pos 7; minor_version = pos 0; file_id = pos 5 })
          s)
    × (s.overflowed ≡ true)
unfolding write_var_uint
read_cut_example =
    read_cut false 0 empty 7 0 5 (7 ∷ []) (0 ∷ []) (5 ∷ []) (omega arith) (omega arith)
      (omega arith) refl refl refl
