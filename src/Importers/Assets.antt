-- ===== src/Importers/Assets.antt =====
-- `BackboardImporter::addFileAsset` (src/importers/backboard_importer.cpp). The file assets are the
-- list of their `assetId`s, which are uint32_t, and so is `nextId`.
pub mod Distinct
pub mod Resolve
pub mod Numbered
pub mod Positions
use rive_cpp_legacy.Prelude.{ℕ, ◌+◌, ◌%◌, ◌^◌, List, [], ◌∷◌, ◌++◌, leb, contains, if◌then◌else◌}

-- The loop that makes the ids unique: the ids it has met, and the next one to give out.
pub renumber : List ℕ → ℕ → List ℕ → List ℕ
renumber ids next_id [] = []
renumber ids next_id (asset ∷ rest) =
    let seen = renumber ids next_id rest in
    let new =
      renumber (asset ∷ ids) (if leb next_id asset then (asset + 1) % 2 ^ 32 else next_id) rest in
    if contains ids asset then next_id ∷ seen else asset ∷ new

unfoldable pub add_file_asset : ℕ → List ℕ → List ℕ
unfolding renumber
add_file_asset asset file_assets = renumber [] 1 (file_assets ++ (asset ∷ []))
