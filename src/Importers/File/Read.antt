-- ===== src/Importers/File/Read.antt =====
-- File::read and File::import (src/file.cpp).
-- An importer is its pointer: the next number that was not given out yet.
use rive_cpp_legacy.Prelude.{
  ℕ, zero, suc, Bool, true, false, not, List, [], ◌∷◌, ◌++◌, Option, none, some, if◌then◌else◌,
  ◌==◌, contains, get_elem?,
}
use rive_cpp_legacy.Prelude.Int.{ℤ, pos, negsuc}
use rive_cpp_legacy.Core.Reader.{Reader, reader, has_error, reached_end}
use rive_cpp_legacy.Importers.Header.{Header, Result, exhausted, undefined, done, and_then, read}
use rive_cpp_legacy.Importers.Stack.{
  is_ok, ImportStack, Objects, make_latest, resolve, read_null_object,
}
use rive_cpp_legacy.Importers.File.Types.{
  artboard, backboard, layer_component, view_model, data_enum, view_model_property_enum,
  asset_types, Choice, no_importer, importer, importer_of, importer_for,
}
use rive_cpp_legacy.Importers.File.{Runtime, read_runtime_object}

pub data ImportResult : Type 0 where
  success : ImportResult
  unsupported_version : ImportResult
  malformed : ImportResult

-- The members of a File, the locals of `read`, and the number of importers made. `last_bindable` is
-- `none` as long as it was never set.
pub record Import (World : Type 0) : Type 0 where
  pub backboard_read : Option ℕ
  pub artboards : List ℕ
  pub file_assets : List ℕ
  pub view_models : List ℕ
  pub enums : List ℕ
  pub last_bindable : Option ℕ
  pub importers : ℕ
  pub stack : ImportStack World

-- What one object leads to: undefined behaviour or an exception, the return of `malformed`, or the
-- next round.
pub data Outcome (World : Type 0) : Type 0 where
  undefined_there : Outcome World
  fails : Import World → Outcome World
  goes_on : Import World → Outcome World

abbrev pub and_next :
    {World : Type 0} → Outcome World → (Import World → Outcome World) → Outcome World
and_next undefined_there next = undefined_there
and_next (fails s) next = fails s
and_next (goes_on s) next = next s

abbrev pub set_world : {World : Type 0} → World → Import World → Import World
set_world w s = let stack = s.stack in record s { stack = record stack { world = w } }

module _ {World : Type 0} (runtime : Runtime World) (objects : Objects World) where
  open runtime use {
    core_type, is_data_bind, is_layer_component, import_object, destroy, set_target, set_factory,
    enum_id, set_data_enum, make_importer, make_component_importer,
  }

  -- A DataBind is bound to the last object of another type.
  unfoldable pub bind_target : ℕ → Import World → Outcome World
  bind_target o s =
      if not (is_data_bind o s.stack.world)
      then goes_on (record s { last_bindable = some o })
      else (elim s.last_bindable [
        | none ↦ undefined_there
        | some last ↦ goes_on (set_world (set_target o last s.stack.world) s)
      ])

  unfoldable pub register : ℕ → Import World → Outcome World
  register o s =
      let type = core_type o s.stack.world in
      if type == backboard
      then goes_on (record s { backboard_read = some o })
      else if type == artboard
      then goes_on
          (set_world (set_factory o s.stack.world) (record s { artboards = s.artboards ++ o ∷ [] }))
      else if contains asset_types type
      then goes_on (record s { file_assets = s.file_assets ++ o ∷ [] })
      else if type == view_model
      then goes_on (record s { view_models = s.view_models ++ o ∷ [] })
      else if type == data_enum
      then goes_on (record s { enums = s.enums ++ o ∷ [] })
      else if type == view_model_property_enum
      then (elim (get_elem? s.enums (enum_id o s.stack.world)) [
        | none ↦ undefined_there
        | some e ↦ goes_on (set_world (set_data_enum o e s.stack.world) s)
      ])
      else goes_on s

  -- `makeLatest`, with an importer or without.
  unfoldable pub put_latest : ℕ → Option ℕ → Import World → Outcome World
  put_latest type added s =
      let (code, stack') = make_latest objects type added s.stack in
      let s' = record s { stack = stack' } in if is_ok code then goes_on s' else fails s'

  -- An importer is made, with its parent's importer, and put on the stack.
  unfoldable pub put_importer : ℕ → ℕ → Option ℕ → Import World → Outcome World
  unfolding put_latest
  put_importer type o parent s = put_latest type (some s.importers) (
      set_world (make_importer s.importers o parent s.stack.world)
        (record s { importers = suc s.importers }))

  unfoldable pub put_chosen : Choice → ℕ → Import World → Outcome World
  unfolding put_importer
  put_chosen no_importer o s = put_latest (core_type o s.stack.world) none s
  put_chosen (importer type) o s = put_importer type o none s
  put_chosen (importer_of type parent_type) o s = elim (s.stack.latests parent_type) [
    | none ↦ fails s
    | some parent ↦ put_importer type o (some parent) s
  ]

  unfoldable pub put_component : ℕ → Import World → Outcome World
  unfolding put_latest
  put_component o s =
      if is_layer_component o s.stack.world
      then put_latest layer_component (some s.importers) (
          set_world (make_component_importer s.importers o s.stack.world)
            (record s { importers = suc s.importers }))
      else goes_on s

  -- The rest of a round, once the object was imported.
  unfoldable pub place_object : ℕ → Import World → Outcome World
  unfolding register put_chosen put_component
  place_object o s =
      and_next (register o s) (λ t.
        and_next (put_chosen (importer_for (core_type o t.stack.world)) o t) (put_component o))

  unfoldable pub handle_object : ℕ → Import World → Outcome World
  unfolding bind_target place_object
  handle_object o s = and_next (bind_target o s) (λ t.
      let (code, w) = import_object o t.stack.latests t.stack.world in
      if is_ok code then place_object o (set_world w t) else goes_on (set_world (destroy o w) t))

  -- One round after `readRuntimeObject`.
  unfoldable pub handle : Option ℕ → Import World → Outcome World
  unfolding handle_object
  handle none s = goes_on (record s { stack = (read_null_object objects s.stack).1 })
  handle (some o) s = handle_object o s

  module _ (big : Bool) (header : Header) (key_fuel : ℕ) where
    -- False where `read` returns `malformed` inside the loop.
    unfoldable pub read_loop : ℕ → Import World → Reader → Result (Bool × Import World)
    unfolding handle and_then
    read_loop zero s r = exhausted
    read_loop (suc fuel) s r =
        let round =
          and_then (read_runtime_object runtime big header key_fuel s.stack.world r)
            (λ (object, w) t. elim (handle object (set_world w s)) [
              | undefined_there ↦ undefined
              | fails s' ↦ done (false, s') t
              | goes_on s' ↦ read_loop fuel s' t
            ]) in
        if reached_end r then done (true, s) r else round

    unfoldable pub read_file : ℕ → Import World → Reader → Result (ImportResult × Import World)
    unfolding read_loop and_then
    read_file fuel s r = and_then (read_loop fuel s r) (λ (ended, s') t.
        let (code, stack') = resolve objects s'.stack in
        let s'' = record s' { stack = stack' } in
        if not ended
        then done (ImportResult.malformed, s') t
        else if has_error t
        then done (ImportResult.malformed, s') t
        else if is_ok code
        then done (ImportResult.success, s'') t
        else done (ImportResult.malformed, s'') t)

  abbrev pub new_import : World → Import World
  new_import w = record {
    backboard_read = none;
    artboards = [];
    file_assets = [];
    view_models = [];
    enums = [];
    last_bindable = none;
    importers = 0;
    stack = record { latests = λ key. none; last_added = []; world = w };
  }

  -- Its numbers are read only when they were written.
  abbrev pub new_header : Header
  new_header = record {
    major_version = pos 0;
    minor_version = pos 0;
    file_id = pos 0;
    property_to_field_index = [];
  }

  abbrev pub is_major : ℤ → Bool
  is_major (pos n) = n == 7
  is_major (negsuc n) = false

  abbrev pub if_success : ImportResult × Import World → ImportResult × Option (Import World)
  if_success (ImportResult.success, s) = (ImportResult.success, some s)
  if_success (result, s) = (result, none)

  unfoldable pub import_file :
      Bool → ℕ → List ℕ → World → Result (ImportResult × Option (Import World))
  unfolding read_file and_then
  import_file big fuel bytes w =
      and_then (read big fuel new_header (reader bytes)) (λ (good, header) r.
        if not good
        then done (ImportResult.malformed, none) r
        else if not (is_major header.major_version)
        then done (ImportResult.unsupported_version, none) r
        else and_then (read_file big header fuel fuel (new_import w) r)
            (λ o t. done (if_success o) t))
