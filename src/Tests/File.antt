-- ===== src/Tests/File.antt =====
-- Witnesses and tests of File::import (src/file.cpp), on a runtime of two types of objects, whose
-- pointers are their type keys, and of two property keys.
use rive_cpp_legacy.Prelude.{
  ℕ, ◌+◌, ◌≡◌, refl, sym, ap, subst, inl, inr, Bool, true, false, List, [], ◌∷◌, ◌++◌, Option, none,
  some, arith, ◌==◌, if◌then◌else◌, contains, count, Bool-cases,
}
use mathlib.Core.List.{append-nil}
use rive_cpp_legacy.Prelude.Int.{ℤ, pos, negsuc}
use rive_cpp_legacy.Core.Leb.{write_var_uint, decode_uint_leb}
use rive_cpp_legacy.Core.Reader.{
  Reader, reader, overflow, has_error, reached_end, read_byte, read_var_uint_as, as_uint32,
}
use rive_cpp_legacy.Core.Reader.Behind.{behind, read_var_uint_as-write_var_uint}
use rive_cpp_legacy.Core.Reader.Keeps.{Keeps, Keeps-refl, read_var_uint_as-Takes}
use rive_cpp_legacy.Importers.Header.{Header, done, fingerprint, read}
use rive_cpp_legacy.Importers.Header.Ends.{Ends}
use rive_cpp_legacy.Importers.Stack.{StatusCode, Objects, make_latest, resolve, read_null_object}
use rive_cpp_legacy.Importers.File.{Runtime, skip_field, field_of, read_runtime_object}
use rive_cpp_legacy.Importers.File.Types.{importer_for}
use rive_cpp_legacy.Importers.File.Read.{
  ImportResult, Import, handle, new_header, read_file, import_file,
}
use rive_cpp_legacy.Importers.File.Logged.{logged_objects, logged}
use rive_cpp_legacy.Importers.File.Ends.{OnlyReads, import_file-Ends}
use rive_cpp_legacy.Importers.File.Once.{import_file_resolves}
use rive_cpp_legacy.Importers.File.Success.{IsRead, import_file_success}
use rive_cpp_legacy.Importers.File.Stored.{Encoded, Deserializes, Property, Properties}
use rive_cpp_legacy.Importers.File.Whole.{read_runtime_object_whole, read_runtime_object_cut}
use rive_cpp_legacy.Importers.File.Stream.{Stream, read_file-Stream}

abbrev number : ℤ → ℕ
number (pos n) = n
number (negsuc n) = 0

abbrev with_value : Option (ℤ × Reader) → Option ((Bool × ℕ) × Reader)
with_value none = none
with_value (some (v, r)) = some ((true, number v), r)

-- The world is the last value of the property 7. The property 9 is known to the runtime only.
abbrev tiny : Runtime ℕ
tiny = record {
  make_core_instance =
      λ key w. (if contains (23 ∷ 1 ∷ []) (number key) then some (number key) else none, w);
  property_field_id = λ key. if number key == 9 then some 0 else none;
  core_type = λ o w. o;
  is_data_bind = λ o w. false;
  is_layer_component = λ o w. false;
  deserialize = λ o key w r.
      if number key == 7 then with_value (read_var_uint_as as_uint32 r) else some ((false, w), r);
  import_object = λ o latests w. (StatusCode.ok, w);
  destroy = λ o w. w;
  set_target = λ o last w. w;
  set_factory = λ o w. w;
  enum_id = λ o w. 0;
  set_data_enum = λ o e w. w;
  make_importer = λ g o parent w. w;
  make_component_importer = λ g o w. w;
}

abbrev tiny_objects : Objects ℕ
tiny_objects = record {
  resolve_object = λ g w. (StatusCode.ok, w + 1);
  reads_null = λ g w. (false, w);
}

with_value-some :
    (o : Option (ℤ × Reader)) (b : Bool) (w : ℕ) (s : Reader)
    → with_value o ≡ some ((b, w), s)
    → (v : ℤ) × (o ≡ some (v, s))
with_value-some none b w s e = cc
with_value-some (some (v, t)) b w s e = (v, ground (arith, e))

tiny-OnlyReads : (bytes : List ℕ) → OnlyReads tiny bytes
tiny-OnlyReads bytes object key w w' b r s same h e = elim (Bool-cases (number key == 7)) [
  | inl seven ↦
      let (v, there) = with_value-some (read_var_uint_as as_uint32 r) b w' s (rw seven at e) in
      (read_var_uint_as-Takes as_uint32 r s v h there).0.0
  | inr other ↦
      let same : r ≡ s = ground (arith, other, e) in subst (λ t. Keeps r t) same (Keeps-refl r h)
]

-- A backboard, an artboard with the property 7, and an object of a type that is not known, with the
-- property 9.
abbrev file_bytes : List ℕ
file_bytes = fingerprint ++ 7 ∷ 0 ∷ 5 ∷ 0 ∷ 23 ∷ 0 ∷ 1 ∷ 7 ∷ 42 ∷ 0 ∷ 50 ∷ 9 ∷ 3 ∷ 0 ∷ []

import_file-Ends_example : Ends (import_file tiny tiny_objects false 20 file_bytes 0)
import_file-Ends_example =
    import_file-Ends tiny file_bytes (tiny-OnlyReads file_bytes) tiny_objects false 20 0
      (omega arith)

abbrev file_read : Import (ℕ × List ℕ)
file_read = record {
  backboard_read = some 23;
  artboards = 1 ∷ [];
  file_assets = [];
  view_models = [];
  enums = [];
  last_bindable = some 1;
  importers = 2;
  stack = record { latests = λ key. none; last_added = []; world = (44, 0 ∷ 1 ∷ []) };
}

import_file_test :
    import_file (logged tiny) (logged_objects tiny_objects) false 20 file_bytes (0, [])
    ≡ done (ImportResult.success, some file_read) (behind file_bytes file_bytes)
unfolding import_file decode_uint_leb read_var_uint_as read_byte reader has_error reached_end
    skip_field field_of resolve make_latest read_null_object read read_runtime_object importer_for
import_file_test = refl

import_file_resolves_example : count 1 (0 ∷ 1 ∷ []) ≡ 1
import_file_resolves_example =
    import_file_resolves tiny tiny_objects false 20 file_bytes 0 file_read
      (behind file_bytes file_bytes) import_file_test 1

import_file_success_example :
    IsRead (logged tiny) (logged_objects tiny_objects) false (behind file_bytes file_bytes)
import_file_success_example =
    import_file_success (logged tiny) (logged_objects tiny_objects) false 20 file_bytes (0, [])
      (some file_read) (behind file_bytes file_bytes) import_file_test

abbrev no_fields : Header
no_fields = new_header tiny tiny_objects

seven_is_known : (w : ℕ) → Deserializes tiny false no_fields 1 7 (42 ∷ []) w true 42
unfolding write_var_uint
seven_is_known w all front back e =
    rw (read_var_uint_as-write_var_uint as_uint32 all front (42 ∷ []) back 42 (omega arith) refl e)
      refl

nine_is_unknown : (w : ℕ) → Deserializes tiny false no_fields 1 9 (3 ∷ []) w false w
nine_is_unknown w all front back e =
    ap (λ f. some ((false, w), behind all f)) (sym (append-nil front))

three_is_Encoded : Encoded 0 (3 ∷ [])
unfolding write_var_uint
three_is_Encoded = Encoded.uint 3 (3 ∷ []) (omega arith) refl

-- The property 7, and the property 9, which an artboard does not know.
two-Properties :
    (end : List ℕ) → Properties tiny false no_fields (some 1) end 2 (7 ∷ 42 ∷ 9 ∷ 3 ∷ end) 0 42
unfolding write_var_uint field_of
two-Properties end =
    Properties.one_more 1 7 (7 ∷ []) (42 ∷ []) (9 ∷ 3 ∷ end) 0 42 42 (omega arith) (omega arith)
      refl (Property.known 1 7 (42 ∷ []) 0 42 (seven_is_known 0))
      (Properties.one_more 0 9 (9 ∷ []) (3 ∷ []) end 42 42 42 (omega arith) (omega arith) refl
        (Property.unknown 1 9 0 (3 ∷ []) 42 42 (nine_is_unknown 42) refl three_is_Encoded)
        (Properties.no_more 42))

read_runtime_object_whole_example :
    read_runtime_object tiny false no_fields 3 0
      (behind (23 ∷ 0 ∷ 1 ∷ 7 ∷ 42 ∷ 9 ∷ 3 ∷ 0 ∷ 50 ∷ []) (23 ∷ 0 ∷ []))
    ≡ done
        (some 1, 42)
        (behind (23 ∷ 0 ∷ 1 ∷ 7 ∷ 42 ∷ 9 ∷ 3 ∷ 0 ∷ 50 ∷ []) (23 ∷ 0 ∷ 1 ∷ 7 ∷ 42 ∷ 9 ∷ 3 ∷ 0 ∷ []))
unfolding write_var_uint
read_runtime_object_whole_example =
    read_runtime_object_whole tiny false no_fields 2 1 (some 1) (1 ∷ []) (7 ∷ 42 ∷ 9 ∷ 3 ∷ 0 ∷ []) 0
      0 42 (omega arith) refl refl (two-Properties (0 ∷ [])) 3 (omega arith)
      (23 ∷ 0 ∷ 1 ∷ 7 ∷ 42 ∷ 9 ∷ 3 ∷ 0 ∷ 50 ∷ []) (23 ∷ 0 ∷ []) (50 ∷ []) refl

read_runtime_object_cut_example :
    read_runtime_object tiny false no_fields 3 0
      (behind (23 ∷ 0 ∷ 1 ∷ 7 ∷ 42 ∷ 9 ∷ 3 ∷ []) (23 ∷ 0 ∷ []))
    ≡ done
        (some 1, 42)
        (overflow (behind (23 ∷ 0 ∷ 1 ∷ 7 ∷ 42 ∷ 9 ∷ 3 ∷ []) (23 ∷ 0 ∷ 1 ∷ 7 ∷ 42 ∷ 9 ∷ 3 ∷ [])))
unfolding write_var_uint
read_runtime_object_cut_example =
    read_runtime_object_cut tiny false no_fields 2 1 (some 1) (1 ∷ []) (7 ∷ 42 ∷ 9 ∷ 3 ∷ []) 0 0 42
      (omega arith) refl refl (two-Properties []) 3 (omega arith) (23 ∷ 0 ∷ 1 ∷ 7 ∷ 42 ∷ 9 ∷ 3 ∷ [])
      (23 ∷ 0 ∷ []) refl

-- A file that already holds a backboard.
abbrev file_before : Import ℕ
file_before = record {
  backboard_read = some 23;
  artboards = [];
  file_assets = [];
  view_models = [];
  enums = [];
  last_bindable = some 23;
  importers = 1;
  stack = record {
    latests = λ key. if key == 23 then some 0 else none;
    last_added = 0 ∷ [];
    world = 0;
  };
}

abbrev file_after : Import ℕ
file_after = record file_before {
  artboards = 1 ∷ [];
  last_bindable = some 1;
  importers = 2;
  stack = record {
    latests = λ key. if key == 1 then some 1 else if key == 23 then some 0 else none;
    last_added = 0 ∷ 1 ∷ [];
    world = 42;
  };
}

one_object :
    Stream tiny tiny_objects false no_fields 3 1
      (1 ∷ 7 ∷ 42 ∷ 9 ∷ 3 ∷ 0 ∷ [])
      file_before
      file_after
unfolding write_var_uint handle importer_for make_latest
one_object =
    Stream.one_more 0 2 1 (some 1) (1 ∷ []) (7 ∷ 42 ∷ 9 ∷ 3 ∷ 0 ∷ []) [] 0 42 file_before file_after
      file_after (omega arith) refl refl (two-Properties (0 ∷ [])) (omega arith) refl
      (Stream.no_more file_after)

read_file-Stream_example :
    read_file tiny tiny_objects false no_fields 3 2 file_before
      (behind (23 ∷ 0 ∷ 1 ∷ 7 ∷ 42 ∷ 9 ∷ 3 ∷ 0 ∷ []) (23 ∷ 0 ∷ []))
    ≡ done
        (
          ImportResult.success,
          record file_after {
            stack = record { latests = λ key. none; last_added = []; world = 44 };
          },
        )
        (behind (23 ∷ 0 ∷ 1 ∷ 7 ∷ 42 ∷ 9 ∷ 3 ∷ 0 ∷ []) (23 ∷ 0 ∷ 1 ∷ 7 ∷ 42 ∷ 9 ∷ 3 ∷ 0 ∷ []))
unfolding resolve
read_file-Stream_example =
    read_file-Stream tiny tiny_objects false no_fields 3 1 (1 ∷ 7 ∷ 42 ∷ 9 ∷ 3 ∷ 0 ∷ []) file_before
      file_after one_object 2 (omega arith) refl (23 ∷ 0 ∷ 1 ∷ 7 ∷ 42 ∷ 9 ∷ 3 ∷ 0 ∷ [])
      (23 ∷ 0 ∷ []) refl
