-- ===== src/Importers/Assets/Positions.antt =====
-- Which artboards a BackboardImporter (src/importers/backboard_importer.cpp) nests.
use rive_cpp_legacy.Prelude.{
  ℕ, zero, suc, ◌+◌, ◌-◌, ◌^◌, ◌≤◌, ◌<◌, ◌≡◌, refl, sym, ap, ◌∙◌, inl, inr, List, [], ◌∷◌, ◌++◌,
  Option, none, some, arith, Bool-cases, length, ltb,
}
use mathlib.Core.List.{append_assoc, append-nil}
use rive_cpp_legacy.Prelude.Int.{pos}
use rive_cpp_legacy.Importers.Assets.Resolve.{
  Bindings, BackboardImporter, new_importer, Addition, add_to_backboard, add_all, find_artboard,
  as_key, nest_loop,
}
use rive_cpp_legacy.Importers.Assets.Numbered.{
  artboards_of, nested_of, artboard_at, IsNumbered, add_all_numbered, add_all_negative,
}

add_all_nested :
    (calls : List Addition) (s : BackboardImporter)
    → (add_all calls s).nested_artboards ≡ s.nested_artboards ++ nested_of calls
unfolding add_all add_to_backboard
add_all_nested [] s = sym (append-nil s.nested_artboards)
add_all_nested (Addition.add_nested_artboard o ∷ rest) s =
    add_all_nested rest (add_to_backboard (Addition.add_nested_artboard o) s)
    ∙ append_assoc s.nested_artboards (o ∷ []) (nested_of rest)
add_all_nested (Addition.add_artboard o ∷ rest) s =
    add_all_nested rest (add_to_backboard (Addition.add_artboard o) s)
add_all_nested (Addition.add_missing_artboard ∷ rest) s =
    add_all_nested rest (add_to_backboard Addition.add_missing_artboard s)
add_all_nested (Addition.add_asset o id ∷ rest) s =
    add_all_nested rest (add_to_backboard (Addition.add_asset o id) s)
add_all_nested (Addition.add_file_asset_referencer o ∷ rest) s =
    add_all_nested rest (add_to_backboard (Addition.add_file_asset_referencer o) s)
add_all_nested (Addition.add_data_converter o ∷ rest) s =
    add_all_nested rest (add_to_backboard (Addition.add_data_converter o) s)
add_all_nested (Addition.add_data_converter_referencer o ∷ rest) s =
    add_all_nested rest (add_to_backboard (Addition.add_data_converter_referencer o) s)
add_all_nested (Addition.add_data_converter_group_item_referencer o ∷ rest) s =
    add_all_nested rest (add_to_backboard (Addition.add_data_converter_group_item_referencer o) s)

artboard_at_end : (os : List (Option ℕ)) (i : ℕ) → length os ≤ i → artboard_at os i ≡ none
artboard_at_end [] i h = refl
artboard_at_end (o ∷ os) zero h = elim h [ ]
artboard_at_end (o ∷ os) (suc i) h = artboard_at_end os i (omega (arith, h))

new-IsNumbered : IsNumbered new_importer
unfolding find_artboard
new-IsNumbered = record { fresh = λ i later. refl; negative = λ k. refl }

-- An id names the artboard at its position in the file.
find_added :
    (calls : List Addition) (id : ℕ)
    → length (artboards_of calls) < 2 ^ 31
    → find_artboard (add_all calls new_importer).artboard_lookup (as_key id)
      ≡ artboard_at (artboards_of calls) id
find_added calls id few = elim (Bool-cases (ltb id (2 ^ 31))) [
  | inl small ↦
      let e : 0 + id ≡ id = omega arith in
      rw small (
        ap (λ k. find_artboard (add_all calls new_importer).artboard_lookup (pos k)) (sym e)
        ∙ add_all_numbered calls new_importer id new-IsNumbered)
  | inr large ↦ rw large (
      add_all_negative calls new_importer (2 ^ 32 - id - 1) new-IsNumbered
      ∙ sym (artboard_at_end (artboards_of calls) id (ground (arith, large, few))))
]

module _ {World : Type 0} (links : Bindings World) where
  -- Each nested artboard is nested with the artboard at the position that it names, if there is one.
  abbrev pub nest_each : List (Option ℕ) → List ℕ → World → World
  nest_each artboards [] w = w
  nest_each artboards (n ∷ rest) w =
      nest_each artboards rest (elim (artboard_at artboards (links.artboard_id n w)) [
        | none ↦ w
        | some a ↦ links.nest n a w
      ])

  nest_loop-added :
      (calls : List Addition) (ns : List ℕ) (w : World)
      → length (artboards_of calls) < 2 ^ 31
      → nest_loop links (add_all calls new_importer).artboard_lookup ns w
        ≡ nest_each (artboards_of calls) ns w
  unfolding nest_loop
  nest_loop-added calls [] w few = refl
  nest_loop-added calls (n ∷ rest) w few =
      rw (find_added calls (links.artboard_id n w) few) (nest_loop-added calls rest _ few)

  -- Where a file has fewer than 2 ^ 31 artboards, the first loop of `resolve` nests each nested
  -- artboard, in the order in which they were added, with the artboard at the position in the file
  -- that it names, if there is one, the missing artboards counted: however the calls that add
  -- artboards, nested artboards and other objects follow each other.
  pub nest_loop-positions :
      (calls : List Addition) (w : World)
      → length (artboards_of calls) < 2 ^ 31
      → nest_loop links
          (add_all calls new_importer).artboard_lookup
          (add_all calls new_importer).nested_artboards
          w
        ≡ nest_each (artboards_of calls) (nested_of calls) w
  nest_loop-positions calls w few =
      rw (add_all_nested calls new_importer) (nest_loop-added calls (nested_of calls) w few)
