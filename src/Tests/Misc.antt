-- ===== src/Tests/Misc.antt =====
-- Code points, file assets and the objects of a BackboardImporter.
use rive_cpp_legacy.Prelude.{
  ℕ, ◌-◌, ◌^◌, List, if◌then◌else◌, ◌==◌, ◌+◌, ◌%◌, ◌≤◌, ◌<◌, ◌≡◌, refl, [], ◌∷◌, ◌++◌, some, arith,
}
use rive_cpp_legacy.Text.Utf.{next_utf8, to_utf16}
use rive_cpp_legacy.Text.Utf.RoundTrip.{utf8, next_utf8-utf8}
use rive_cpp_legacy.Text.Utf.Surrogates.{to_utf16_units}
use rive_cpp_legacy.Importers.Assets.{add_file_asset}
use rive_cpp_legacy.Importers.Stack.{StatusCode}
use rive_cpp_legacy.Importers.Assets.Resolve.{
  Bindings, Addition, new_importer, add_all, nest_loop, resolve_backboard,
}
use rive_cpp_legacy.Importers.Assets.Positions.{nest_loop-positions}
use rive_cpp_legacy.Importers.Assets.Distinct.{AreDistinct, add_file_asset-AreDistinct}

next_utf8-utf8_example : next_utf8 (utf8 0x1f600 ++ (7 ∷ [])) ≡ some (0x1f600, 7 ∷ [])
next_utf8-utf8_example = next_utf8-utf8 0x1f600 (7 ∷ []) (omega arith)

-- U+1F600 would be 0xd83d 0xde00.
to_utf16_grin : to_utf16 0x1f600 ≡ some (0xd7fd ∷ 0xde00 ∷ [])
unfolding to_utf16
to_utf16_grin = refl

to_utf16_units_example :
    (0x1f600 ≤ 0xffff → to_utf16 0x1f600 ≡ some (0x1f600 ∷ []))
    × (0xffff < 0x1f600
        → (high : ℕ) × (to_utf16 0x1f600 ≡ some (high ∷ (0xdc00 + 0x1f600 % 0x400) ∷ []))
          × (high < 0xd800))
to_utf16_units_example = to_utf16_units 0x1f600 (omega arith)

add_file_asset-AreDistinct_example :
    (a : ℕ) × (add_file_asset 4 (4 ∷ 9 ∷ []) ≡ 4 ∷ 9 ∷ a ∷ [])
    × AreDistinct [] (4 ∷ 9 ∷ a ∷ [])
    × (AreDistinct [] (4 ∷ 9 ∷ 4 ∷ []) → a ≡ 4)
add_file_asset-AreDistinct_example =
    add_file_asset-AreDistinct 4 (4 ∷ 9 ∷ []) (omega arith) (refl, (refl, tt))

-- The world lists what was bound, the last first. The nested artboard 70 names the artboard 2, and
-- any other none, by the highest id.
abbrev bindings : Bindings (List (ℕ × ℕ))
bindings = record {
  artboard_id = λ n w. if n == 70 then 2 else 2 ^ 32 - 1;
  nest = λ n a w. (n, a) ∷ w;
  asset_id = λ r w. 1;
  set_asset = λ r a w. (r, a) ∷ w;
  converter_id = λ r w. 5;
  set_converter = λ r c w. (r, c) ∷ w;
  group_converter_id = λ r w. 0;
  set_group_converter = λ r c w. (r, c) ∷ w;
}

-- The artboard 1 is missing.
abbrev backboard_calls : List Addition
backboard_calls =
    Addition.add_nested_artboard 70
    ∷ Addition.add_artboard (some 10)
    ∷ Addition.add_missing_artboard
    ∷ Addition.add_asset 30 1
    ∷ Addition.add_asset 31 1
    ∷ Addition.add_file_asset_referencer 40
    ∷ Addition.add_artboard (some 12)
    ∷ Addition.add_nested_artboard 71
    ∷ Addition.add_data_converter 50
    ∷ Addition.add_data_converter_referencer 60
    ∷ Addition.add_data_converter_group_item_referencer 61
    ∷ []

resolve_test :
    resolve_backboard bindings (add_all backboard_calls new_importer) []
    ≡ (StatusCode.ok, (61, 50) ∷ (40, 31) ∷ (70, 12) ∷ [])
unfolding resolve_backboard add_all
resolve_test = refl

nest_loop-positions_example :
    nest_loop bindings
      (add_all backboard_calls new_importer).artboard_lookup
      (add_all backboard_calls new_importer).nested_artboards
      []
    ≡ (70, 12) ∷ []
nest_loop-positions_example = nest_loop-positions bindings backboard_calls [] (omega arith)
