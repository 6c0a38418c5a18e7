-- ===== src/Importers/Assets/Numbered.antt =====
-- The numbers by which a BackboardImporter (src/importers/backboard_importer.cpp) finds artboards.
use rive_cpp_legacy.Prelude.{
  ℕ, zero, suc, ◌+◌, ◌≤◌, ◌<◌, ◌≡◌, refl, ap, ◌∙◌, true, false, List, [], ◌∷◌, Option, none, arith,
  ◌==◌,
}
use rive_cpp_legacy.Prelude.Int.{pos, negsuc}
use rive_cpp_legacy.Importers.Assets.Resolve.{
  BackboardImporter, Addition, add_to_backboard, add_all, find_artboard,
}

-- What is added as an artboard, with the missing ones.
abbrev pub artboards_of : List Addition → List (Option ℕ)
artboards_of [] = []
artboards_of (Addition.add_artboard o ∷ rest) = o ∷ artboards_of rest
artboards_of (Addition.add_missing_artboard ∷ rest) = none ∷ artboards_of rest
artboards_of (Addition.add_nested_artboard o ∷ rest) = artboards_of rest
artboards_of (Addition.add_asset o id ∷ rest) = artboards_of rest
artboards_of (Addition.add_file_asset_referencer o ∷ rest) = artboards_of rest
artboards_of (Addition.add_data_converter o ∷ rest) = artboards_of rest
artboards_of (Addition.add_data_converter_referencer o ∷ rest) = artboards_of rest
artboards_of (Addition.add_data_converter_group_item_referencer o ∷ rest) = artboards_of rest

-- What is added as a nested artboard.
abbrev pub nested_of : List Addition → List ℕ
nested_of [] = []
nested_of (Addition.add_nested_artboard o ∷ rest) = o ∷ nested_of rest
nested_of (Addition.add_artboard o ∷ rest) = nested_of rest
nested_of (Addition.add_missing_artboard ∷ rest) = nested_of rest
nested_of (Addition.add_asset o id ∷ rest) = nested_of rest
nested_of (Addition.add_file_asset_referencer o ∷ rest) = nested_of rest
nested_of (Addition.add_data_converter o ∷ rest) = nested_of rest
nested_of (Addition.add_data_converter_referencer o ∷ rest) = nested_of rest
nested_of (Addition.add_data_converter_group_item_referencer o ∷ rest) = nested_of rest

-- The artboard at a position.
abbrev pub artboard_at : List (Option ℕ) → ℕ → Option ℕ
artboard_at [] i = none
artboard_at (o ∷ rest) zero = o
artboard_at (o ∷ rest) (suc i) = artboard_at rest i

-- Ids that were not given out yet, and negative ones, are not found.
pub record IsNumbered (s : BackboardImporter) : Type 0 where
  pub fresh : (i : ℕ) → s.next_artboard_id ≤ i → find_artboard s.artboard_lookup (pos i) ≡ none
  pub negative : (k : ℕ) → find_artboard s.artboard_lookup (negsuc k) ≡ none

-- An artboard takes the next id.
numbered_next :
    (s : BackboardImporter) (o : Option ℕ)
    → IsNumbered s
    → IsNumbered (add_to_backboard (Addition.add_artboard o) s)
unfolding add_to_backboard find_artboard
numbered_next s o h = record {
  fresh = λ i later.
      let other : (s.next_artboard_id == i) ≡ false = ground (arith, later) in
      rw other (h.fresh i (omega (arith, later)));
  negative = λ k. h.negative k;
}

numbered_missing :
    (s : BackboardImporter)
    → IsNumbered s
    → IsNumbered (add_to_backboard Addition.add_missing_artboard s)
unfolding add_to_backboard
numbered_missing s h = record {
  fresh = λ i later. h.fresh i (omega (arith, later));
  negative = h.negative;
}

add_to_backboard-IsNumbered :
    (a : Addition) (s : BackboardImporter) → IsNumbered s → IsNumbered (add_to_backboard a s)
unfolding add_to_backboard
add_to_backboard-IsNumbered (Addition.add_artboard o) s h = numbered_next s o h
add_to_backboard-IsNumbered Addition.add_missing_artboard s h = numbered_missing s h
add_to_backboard-IsNumbered (Addition.add_nested_artboard o) s h = record {
  fresh = h.fresh;
  negative = h.negative;
}
add_to_backboard-IsNumbered (Addition.add_asset o id) s h = record {
  fresh = h.fresh;
  negative = h.negative;
}
add_to_backboard-IsNumbered (Addition.add_file_asset_referencer o) s h = record {
  fresh = h.fresh;
  negative = h.negative;
}
add_to_backboard-IsNumbered (Addition.add_data_converter o) s h = record {
  fresh = h.fresh;
  negative = h.negative;
}
add_to_backboard-IsNumbered (Addition.add_data_converter_referencer o) s h = record {
  fresh = h.fresh;
  negative = h.negative;
}
add_to_backboard-IsNumbered (Addition.add_data_converter_group_item_referencer o) s h = record {
  fresh = h.fresh;
  negative = h.negative;
}

-- A call changes no id that was given out.
add_kept :
    (a : Addition) (s : BackboardImporter) (i : ℕ)
    → i < s.next_artboard_id
    → (find_artboard (add_to_backboard a s).artboard_lookup (pos i)
        ≡ find_artboard s.artboard_lookup (pos i))
      × (i < (add_to_backboard a s).next_artboard_id)
unfolding add_to_backboard find_artboard
add_kept (Addition.add_artboard o) s i h =
    let other : (s.next_artboard_id == i) ≡ false = ground (arith, h) in
    (rw other refl, omega (arith, h))
add_kept Addition.add_missing_artboard s i h = (refl, omega (arith, h))
add_kept (Addition.add_nested_artboard o) s i h = (refl, h)
add_kept (Addition.add_asset o id) s i h = (refl, h)
add_kept (Addition.add_file_asset_referencer o) s i h = (refl, h)
add_kept (Addition.add_data_converter o) s i h = (refl, h)
add_kept (Addition.add_data_converter_referencer o) s i h = (refl, h)
add_kept (Addition.add_data_converter_group_item_referencer o) s i h = (refl, h)

add_all_kept :
    (calls : List Addition) (s : BackboardImporter) (i : ℕ)
    → i < s.next_artboard_id
    → find_artboard (add_all calls s).artboard_lookup (pos i)
      ≡ find_artboard s.artboard_lookup (pos i)
unfolding add_all
add_all_kept [] s i h = refl
add_all_kept (a ∷ rest) s i h =
    let (same, later) = add_kept a s i h in add_all_kept rest (add_to_backboard a s) i later ∙ same

pub add_all_negative :
    (calls : List Addition) (s : BackboardImporter) (k : ℕ)
    → IsNumbered s
    → find_artboard (add_all calls s).artboard_lookup (negsuc k) ≡ none
unfolding add_all
add_all_negative [] s k h = h.negative k
add_all_negative (a ∷ rest) s k h =
    add_all_negative rest (add_to_backboard a s) k (add_to_backboard-IsNumbered a s h)

-- The artboards that are added have the next ids, in their order.
pub add_all_numbered :
    (calls : List Addition) (s : BackboardImporter) (i : ℕ)
    → IsNumbered s
    → find_artboard (add_all calls s).artboard_lookup (pos (s.next_artboard_id + i))
      ≡ artboard_at (artboards_of calls) i
unfolding add_all add_to_backboard find_artboard
add_all_numbered [] s i h = h.fresh (s.next_artboard_id + i) (omega arith)
add_all_numbered (Addition.add_artboard o ∷ rest) s zero h =
    let e : s.next_artboard_id + 0 ≡ s.next_artboard_id = omega arith in
    let here : (s.next_artboard_id == s.next_artboard_id) ≡ true = ground arith in
    ap
      (λ k.
        find_artboard (add_all rest (add_to_backboard (Addition.add_artboard o) s)).artboard_lookup
          (pos k))
      e
    ∙ add_all_kept rest (add_to_backboard (Addition.add_artboard o) s) s.next_artboard_id
        (omega arith)
    ∙ rw here refl
add_all_numbered (Addition.add_artboard o ∷ rest) s (suc i) h =
    let e : s.next_artboard_id + suc i
        ≡ (add_to_backboard (Addition.add_artboard o) s).next_artboard_id + i =
      omega arith in
    ap
      (λ k.
        find_artboard (add_all rest (add_to_backboard (Addition.add_artboard o) s)).artboard_lookup
          (pos k))
      e
    ∙ add_all_numbered rest (add_to_backboard (Addition.add_artboard o) s) i
        (add_to_backboard-IsNumbered (Addition.add_artboard o) s h)
add_all_numbered (Addition.add_missing_artboard ∷ rest) s zero h =
    let e : s.next_artboard_id + 0 ≡ s.next_artboard_id = omega arith in
    ap
      (λ k.
        find_artboard
          (add_all rest (add_to_backboard Addition.add_missing_artboard s)).artboard_lookup (pos k))
      e
    ∙ add_all_kept rest (add_to_backboard Addition.add_missing_artboard s) s.next_artboard_id
        (omega arith)
    ∙ h.fresh s.next_artboard_id (omega arith)
add_all_numbered (Addition.add_missing_artboard ∷ rest) s (suc i) h =
    let e : s.next_artboard_id + suc i
        ≡ (add_to_backboard Addition.add_missing_artboard s).next_artboard_id + i =
      omega arith in
    ap
      (λ k.
        find_artboard
          (add_all rest (add_to_backboard Addition.add_missing_artboard s)).artboard_lookup (pos k))
      e
    ∙ add_all_numbered rest (add_to_backboard Addition.add_missing_artboard s) i
        (add_to_backboard-IsNumbered Addition.add_missing_artboard s h)
add_all_numbered (Addition.add_nested_artboard o ∷ rest) s i h =
    add_all_numbered rest (add_to_backboard (Addition.add_nested_artboard o) s) i
      (add_to_backboard-IsNumbered (Addition.add_nested_artboard o) s h)
add_all_numbered (Addition.add_asset o id ∷ rest) s i h =
    add_all_numbered rest (add_to_backboard (Addition.add_asset o id) s) i
      (add_to_backboard-IsNumbered (Addition.add_asset o id) s h)
add_all_numbered (Addition.add_file_asset_referencer o ∷ rest) s i h =
    add_all_numbered rest (add_to_backboard (Addition.add_file_asset_referencer o) s) i
      (add_to_backboard-IsNumbered (Addition.add_file_asset_referencer o) s h)
add_all_numbered (Addition.add_data_converter o ∷ rest) s i h =
    add_all_numbered rest (add_to_backboard (Addition.add_data_converter o) s) i
      (add_to_backboard-IsNumbered (Addition.add_data_converter o) s h)
add_all_numbered (Addition.add_data_converter_referencer o ∷ rest) s i h =
    add_all_numbered rest (add_to_backboard (Addition.add_data_converter_referencer o) s) i
      (add_to_backboard-IsNumbered (Addition.add_data_converter_referencer o) s h)
add_all_numbered (Addition.add_data_converter_group_item_referencer o ∷ rest) s i h =
    add_all_numbered rest (add_to_backboard (Addition.add_data_converter_group_item_referencer o) s)
      i (add_to_backboard-IsNumbered (Addition.add_data_converter_group_item_referencer o) s h)
