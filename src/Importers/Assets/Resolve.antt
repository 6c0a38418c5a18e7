-- ===== src/Importers/Assets/Resolve.antt =====
-- BackboardImporter (src/importers/backboard_importer.cpp). Objects are their pointers, and what they
-- hold is part of the `World`. A file has fewer than 2 ^ 31 artboards, which an `int` counts.
use rive_cpp_legacy.Prelude.{
  ℕ, ◌+◌, ◌-◌, ◌^◌, List, [], ◌∷◌, ◌++◌, Option, none, some, ltb, if◌then◌else◌, get_elem?,
}
use rive_cpp_legacy.Prelude.Int.{ℤ, pos, negsuc}
use rive_cpp_legacy.Importers.Stack.{StatusCode}
use rive_cpp_legacy.Importers.File.{same_int}
use rive_cpp_legacy.Importers.Assets.{add_file_asset}

-- The ids that the objects name, and the calls that bind them.
pub record Bindings (World : Type 0) : Type 0 where
  pub artboard_id : ℕ → World → ℕ
  pub nest : ℕ → ℕ → World → World
  pub asset_id : ℕ → World → ℕ
  pub set_asset : ℕ → ℕ → World → World
  pub converter_id : ℕ → World → ℕ
  pub set_converter : ℕ → ℕ → World → World
  pub group_converter_id : ℕ → World → ℕ
  pub set_group_converter : ℕ → ℕ → World → World

-- m_ArtboardLookup, the newest first, and the file assets with their ids beside them.
pub record BackboardImporter : Type 0 where
  pub artboard_lookup : List (ℤ × Option ℕ)
  pub nested_artboards : List ℕ
  pub file_assets : List ℕ
  pub file_asset_ids : List ℕ
  pub file_asset_referencers : List ℕ
  pub data_converters : List ℕ
  pub data_converter_referencers : List ℕ
  pub data_converter_group_item_referencers : List ℕ
  pub next_artboard_id : ℕ

abbrev pub new_importer : BackboardImporter
new_importer = record {
  artboard_lookup = [];
  nested_artboards = [];
  file_assets = [];
  file_asset_ids = [];
  file_asset_referencers = [];
  data_converters = [];
  data_converter_referencers = [];
  data_converter_group_item_referencers = [];
  next_artboard_id = 0;
}

-- The calls that fill it; an artboard may be the null pointer.
pub data Addition : Type 0 where
  add_nested_artboard : ℕ → Addition
  add_asset : ℕ → ℕ → Addition
  add_file_asset_referencer : ℕ → Addition
  add_artboard : Option ℕ → Addition
  add_missing_artboard : Addition
  add_data_converter : ℕ → Addition
  add_data_converter_referencer : ℕ → Addition
  add_data_converter_group_item_referencer : ℕ → Addition

unfoldable pub add_to_backboard : Addition → BackboardImporter → BackboardImporter
unfolding add_file_asset
add_to_backboard (Addition.add_nested_artboard o) s = record s {
  nested_artboards = s.nested_artboards ++ o ∷ [];
}
add_to_backboard (Addition.add_asset o id) s = record s {
  file_assets = s.file_assets ++ o ∷ [];
  file_asset_ids = add_file_asset id s.file_asset_ids;
}
add_to_backboard (Addition.add_file_asset_referencer o) s = record s {
  file_asset_referencers = s.file_asset_referencers ++ o ∷ [];
}
add_to_backboard (Addition.add_artboard o) s = record s {
  artboard_lookup = (pos s.next_artboard_id, o) ∷ s.artboard_lookup;
  next_artboard_id = s.next_artboard_id + 1;
}
add_to_backboard Addition.add_missing_artboard s = record s {
  next_artboard_id = s.next_artboard_id + 1;
}
add_to_backboard (Addition.add_data_converter o) s = record s {
  data_converters = s.data_converters ++ o ∷ [];
}
add_to_backboard (Addition.add_data_converter_referencer o) s = record s {
  data_converter_referencers = s.data_converter_referencers ++ o ∷ [];
}
add_to_backboard (Addition.add_data_converter_group_item_referencer o) s = record s {
  data_converter_group_item_referencers = s.data_converter_group_item_referencers ++ o ∷ [];
}

unfoldable pub add_all : List Addition → BackboardImporter → BackboardImporter
unfolding add_to_backboard
add_all [] s = s
add_all (a ∷ rest) s = add_all rest (add_to_backboard a s)

-- `find` in m_ArtboardLookup, and the test for the null pointer.
unfoldable pub find_artboard : List (ℤ × Option ℕ) → ℤ → Option ℕ
find_artboard [] key = none
find_artboard ((k, o) ∷ rest) key = if same_int k key then o else find_artboard rest key

-- A uint32_t as the `int` that is looked up.
abbrev pub as_key : ℕ → ℤ
as_key id = if ltb id (2 ^ 31) then pos id else negsuc (2 ^ 32 - id - 1)

module _ {World : Type 0} (links : Bindings World) where
  unfoldable pub nest_loop : List (ℤ × Option ℕ) → List ℕ → World → World
  unfolding find_artboard
  nest_loop lookup [] w = w
  nest_loop lookup (n ∷ rest) w =
      nest_loop lookup rest (elim (find_artboard lookup (as_key (links.artboard_id n w))) [
        | none ↦ w
        | some a ↦ links.nest n a w
      ])

  -- The three loops over referencers, which take the object at the index, if there is one.
  unfoldable pub bind_loop :
      (ℕ → World → ℕ) → (ℕ → ℕ → World → World) → List ℕ → List ℕ → World → World
  bind_loop index bind targets [] w = w
  bind_loop index bind targets (r ∷ rest) w =
      bind_loop index bind targets rest
        (elim (get_elem? targets (index r w)) [ none ↦ w | some target ↦ bind r target w ])

  unfoldable pub resolve_backboard : BackboardImporter → World → StatusCode × World
  unfolding nest_loop bind_loop
  resolve_backboard s w =
      let nested = nest_loop s.artboard_lookup s.nested_artboards w in
      let assets =
        bind_loop links.asset_id links.set_asset s.file_assets s.file_asset_referencers nested in
      let converters =
        bind_loop links.converter_id links.set_converter s.data_converters
          s.data_converter_referencers assets in
      (
        StatusCode.ok,
        bind_loop links.group_converter_id links.set_group_converter s.data_converters
            s.data_converter_group_item_referencers converters,
      )
