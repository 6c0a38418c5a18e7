-- ===== src/Importers/File.antt =====
-- readRuntimeObject (src/file.cpp): one object of a file with its properties. The core types, which
-- are generated, are parameters: which objects there are (`makeCoreInstance`), how they read a
-- property (`deserialize`) and what else File::read asks of them. An object is its pointer, a
-- number, and its contents are part of the `World`.
pub mod Types
pub mod Read
pub mod Keeps
pub mod Ends
pub mod Logged
pub mod Resolved
pub mod Good
pub mod Sound
pub mod Once
pub mod Stored
pub mod Whole
pub mod Stream
pub mod Success
use rive_cpp_legacy.Prelude.{
  ℕ, zero, suc, Bool, true, false, List, [], ◌∷◌, Option, none, some, if◌then◌else◌, ◌==◌,
}
use rive_cpp_legacy.Prelude.Int.{ℤ, pos, negsuc}
use rive_cpp_legacy.Core.Reader.{
  Reader, M, has_error, read_string, read_float32, read_uint32, read_var_uint_as, as_int, as_uint16,
  as_uint32,
}
use rive_cpp_legacy.Importers.Header.{
  Header, Result, exhausted, undefined, done, and_then, returned, is_zero,
}
use rive_cpp_legacy.Importers.Stack.{StatusCode}

pub record Runtime (World : Type 0) : Type 0 where
  -- CoreRegistry: `none` for the null pointer and for -1.
  pub make_core_instance : ℤ → World → Option ℕ × World
  pub property_field_id : ℤ → Option ℕ
  -- Core: coreType, is<DataBind>, is<StateMachineLayerComponent>, deserialize, import (which may look
  -- at the stack) and the destructor.
  pub core_type : ℕ → World → ℕ
  pub is_data_bind : ℕ → World → Bool
  pub is_layer_component : ℕ → World → Bool
  pub deserialize : ℕ → ℤ → World → M (Bool × World)
  pub import_object : ℕ → (ℕ → Option ℕ) → World → StatusCode × World
  pub destroy : ℕ → World → World
  -- DataBind::target, m_Factory of an Artboard, and enumId and dataEnum of a ViewModelPropertyEnum.
  pub set_target : ℕ → ℕ → World → World
  pub set_factory : ℕ → World → World
  pub enum_id : ℕ → World → ℕ
  pub set_data_enum : ℕ → ℕ → World → World
  -- The constructors of the importers: the importer's pointer, its object, and the importer that it
  -- takes its parent from, where it has one.
  pub make_importer : ℕ → ℕ → Option ℕ → World → World
  pub make_component_importer : ℕ → ℕ → World → World

abbrev pub same_int : ℤ → ℤ → Bool
same_int (pos m) (pos n) = m == n
same_int (negsuc m) (negsuc n) = m == n
same_int (pos m) (negsuc n) = false
same_int (negsuc m) (pos n) = false

-- RuntimeHeader::propertyFieldId, with the newest assignment first.
unfoldable pub find_field : List (ℤ × ℕ) → ℤ → Option ℕ
find_field [] key = none
find_field ((k, id) ∷ fields) key = if same_int k key then some id else find_field fields key

-- The types' `deserialize` by their ids, whose values are dropped.
abbrev pub without_value : {A : Type 0} → Option (A × Reader) → Option (Unit {0} × Reader)
without_value none = none
without_value (some (a, r)) = some (tt, r)

unfoldable pub skip_field : Bool → ℕ → M (Unit {0})
skip_field big id r =
    if id == 0
    then without_value (read_var_uint_as as_uint32 r)
    else if id == 1
    then without_value (read_string r)
    else if id == 2
    then without_value (read_float32 big r)
    else if id == 3
    then without_value (read_uint32 big r)
    else some (tt, r)

module _ {World : Type 0} (runtime : Runtime World) (big : Bool) (header : Header) where
  open runtime use {make_core_instance, property_field_id, deserialize, destroy}

  unfoldable pub field_of : ℤ → Option ℕ
  unfolding find_field
  field_of key = elim (property_field_id key) [
    | none ↦ find_field header.property_to_field_index key
    | some id ↦ some id
  ]

  -- A property that the object does not know: false if nobody knows its type.
  unfoldable pub skip_property : Option ℕ → World → Reader → Result (Bool × World)
  unfolding skip_field and_then returned
  skip_property none w r = done (false, w) r
  skip_property (some id) w r = and_then (returned (skip_field big id r)) (λ u s. done (true, w) s)

  unfoldable pub read_property : Option ℕ → ℤ → World → Reader → Result (Bool × World)
  unfolding skip_property field_of and_then returned
  read_property none key w r = skip_property (field_of key) w r
  read_property (some object) key w r =
      and_then (returned (deserialize object key w r))
        (λ (known, w') s. if known then done (true, w') s else skip_property (field_of key) w' s)

  -- `delete` of a pointer, which may be null.
  abbrev pub delete_object : Option ℕ → World → World
  delete_object none w = w
  delete_object (some object) w = destroy object w

  unfoldable pub property_loop : ℕ → Option ℕ → World → Reader → Result (Option ℕ × World)
  unfolding read_property and_then returned
  property_loop zero object w r = exhausted
  property_loop (suc fuel) object w r = and_then (returned (read_var_uint_as as_uint16 r)) (λ key s.
      let after = and_then (read_property object key w s) (λ (known, w') t.
        let rest = property_loop fuel object w' t in
        if known then rest else done (none, delete_object object w') t) in
      if is_zero key
      then done (object, w) s
      else if has_error s
      then done (none, delete_object object w) s
      else after)

  unfoldable pub read_runtime_object : ℕ → World → Reader → Result (Option ℕ × World)
  unfolding property_loop and_then returned
  read_runtime_object fuel w r =
      and_then (returned (read_var_uint_as as_int r))
        (λ key s. let (object, w') = make_core_instance key w in property_loop fuel object w' s)
