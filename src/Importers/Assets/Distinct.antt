-- ===== src/Importers/Assets/Distinct.antt =====
-- The ids of the file assets stay distinct.
use rive_cpp_legacy.Prelude.{
  ℕ, ◌+◌, ◌-◌, ◌%◌, ◌^◌, ◌≤◌, ◌<◌, ◌≡◌, refl, true, false, List, [], ◌∷◌, ◌++◌, leb, contains,
  if◌then◌else◌, arith, Bool-cases, All, inl, inr,
}
use rive_cpp_legacy.Importers.Assets.{renumber, add_file_asset}

-- No id stands twice, or in `ids`.
abbrev pub AreDistinct : List ℕ → List ℕ → Type 0
AreDistinct ids [] = Unit {0}
AreDistinct ids (a ∷ rest) = (contains ids a ≡ false) × AreDistinct (a ∷ ids) rest

contains-lt : (ids : List ℕ) (n x : ℕ) → All (λ i. i < n) ids → contains ids x ≡ true → x < n
contains-lt [] n x h e = cc
contains-lt (i ∷ ids) n x h e = ground (arith, contains-lt ids n x h.1)

All-lt_mono : (ids : List ℕ) (m n : ℕ) → m ≤ n → All (λ i. i < m) ids → All (λ i. i < n) ids
All-lt_mono [] m n h k = tt
All-lt_mono (i ∷ ids) m n h k = (omega arith, All-lt_mono ids m n h k.1)

renumber-last :
    (ids old : List ℕ) (next_id asset : ℕ)
    → All (λ i. i < next_id) ids
    → All (λ i. i < 2 ^ 32 - 1) old
    → AreDistinct ids old
    → (a : ℕ) × (renumber ids next_id (old ++ (asset ∷ [])) ≡ old ++ (a ∷ []))
      × AreDistinct ids (old ++ (a ∷ []))
      × (AreDistinct ids (old ++ (asset ∷ [])) → a ≡ asset)
unfolding renumber
renumber-last ids [] next_id asset below small d = elim (Bool-cases (contains ids asset)) [
  | inl dup ↦ (
    next_id,
    ground (arith, dup),
    (ground (arith, Bool-cases (contains ids next_id), contains-lt ids next_id next_id below), tt),
    λ k. ground (arith, dup, k.0),
  )
  | inr new ↦ (asset, ground (arith, new), (new, tt), λ k. refl)
]
renumber-last ids (x ∷ old) next_id asset below small d =
    let next' = if leb next_id x then (x + 1) % 2 ^ 32 else next_id in
    let grows : next_id ≤ next' = ground (arith, small.0) in
    let above : x < next' = ground (arith, small.0) in
    let (a, e, ok, keep) =
      renumber-last (x ∷ ids) old next' asset (above, All-lt_mono ids next_id next' grows below)
        small.1 d.1 in
    (a, ground (arith, d.0, e), (d.0, ok), λ k. keep k.1)

-- Where the ids so far are distinct and none is 2 ^ 32 - 1, a new asset changes none of them and
-- the ids are distinct afterwards; the new asset keeps its own id if no other has it.
pub add_file_asset-AreDistinct :
    (asset : ℕ) (file_assets : List ℕ)
    → All (λ i. i < 2 ^ 32 - 1) file_assets
    → AreDistinct [] file_assets
    → (a : ℕ) × (add_file_asset asset file_assets ≡ file_assets ++ (a ∷ []))
      × AreDistinct [] (file_assets ++ (a ∷ []))
      × (AreDistinct [] (file_assets ++ (asset ∷ [])) → a ≡ asset)
unfolding add_file_asset
add_file_asset-AreDistinct asset file_assets small d =
    renumber-last [] file_assets 1 asset tt small d
