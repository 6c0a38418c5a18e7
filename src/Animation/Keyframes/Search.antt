-- ===== src/Animation/Keyframes/Search.antt =====
-- The index that `closestFrameIndex` finds among increasing keyframes.
use rive_cpp_legacy.Prelude.{
  ℕ, zero, suc, ◌+◌, ◌-◌, ◌/◌, ◌≤◌, ◌<◌, ◌≡◌, refl, inl, inr, Bool, true, false, not, List, [], ◌∷◌,
  some, ltb, if◌then◌else◌, length, get_elem?, arith, Bool-cases, ◌==◌, dec_lt,
}
use rive_cpp_legacy.Animation.Keyframes.{Floats, search_loop, closest_frame_index}

pub get_elem?-some {ℓ} :
    {A : Type ℓ} (xs : List A) (i : ℕ) → i < length xs → (x : A) × (get_elem? xs i ≡ some x)
get_elem?-some [] i h = absurd (omega arith)
get_elem?-some (x ∷ xs) zero h = (x, refl)
get_elem?-some (x ∷ xs) (suc i) h = get_elem?-some xs i (omega arith)

module _ (floats : Floats) (frames : List floats.Float) where
  open floats use {Float, lt, lt_irrefl, lt_trans, lt_total}

  abbrev pub IsIncreasing : Type 0
  IsIncreasing =
      (i j : ℕ) (t u : Float)
      → i < j
      → get_elem? frames i ≡ some t
      → get_elem? frames j ≡ some u
      → lt t u ≡ true

  -- A keyframe at `t` stands before the index: it is earlier, or at `seconds` with an offset of 1.
  abbrev pub before : Float → ℕ → Float → Bool
  before seconds exact_offset t = if exact_offset == 0 then lt t seconds else not (lt seconds t)

  abbrev pub Splits : Float → ℕ → ℕ → Type 0
  Splits seconds exact_offset idx =
      (i : ℕ) (t : Float) → get_elem? frames i ≡ some t → before seconds exact_offset t ≡ ltb i idx

  module _ (seconds : Float) (exact_offset : ℕ) (small : exact_offset ≤ 1) (up : IsIncreasing) where
    abbrev pub Early : ℕ → Type 0
    Early start =
        (i : ℕ) (t : Float) → i < start → get_elem? frames i ≡ some t → lt t seconds ≡ true

    abbrev pub Late : ℕ → Type 0
    Late stop = (i : ℕ) (t : Float) → stop ≤ i → get_elem? frames i ≡ some t → lt seconds t ≡ true

    asym : (a b : Float) → lt a b ≡ true → lt b a ≡ false
    asym a b h = ground (arith, lt_trans a b a h, lt_irrefl a)

    Splits-meet : (idx : ℕ) → Early idx → Late idx → Splits seconds exact_offset idx
    Splits-meet idx early late i t e =
        ground (arith, early i t, late i t, asym t seconds, asym seconds t)

    Splits-exact :
        (mid : ℕ)
        → get_elem? frames mid ≡ some seconds
        → Splits seconds exact_offset (mid + exact_offset)
    Splits-exact mid m i t e = ground (
      arith,
      up i mid t seconds,
      up mid i seconds t,
      lt_irrefl seconds,
      asym t seconds,
      asym seconds t,
    )

    pub search_loop-Splits :
        (fuel start stop : ℕ)
        → stop - start < fuel
        → start ≤ stop
        → stop ≤ length frames
        → Early start
        → Late stop
        → (idx : ℕ) × (search_loop floats frames seconds exact_offset fuel start stop ≡ some idx)
          × (idx ≤ length frames)
          × Splits seconds exact_offset idx
    unfolding search_loop
    search_loop-Splits zero start stop f h k early late = absurd (omega arith)
    search_loop-Splits (suc fuel) start stop f h k early late = elim (dec_lt start stop) [
      | no done ↦
          let e : start ≡ stop = omega arith in
          (
            start,
            ground arith,
            omega arith,
            Splits-meet start early (λ i t p. late i t (omega arith)),
          )
      | yes more ↦
          let mid = (start + stop - 1) / 2 in
          let (t, m) = get_elem?-some frames mid (omega arith) in
          elim (Bool-cases (lt t seconds)) [
            | inl below ↦
                let early' : Early (mid + 1) =
                  λ i u p e. ground (arith, up i mid u t, lt_trans u t seconds) in
                let (idx, r, bound, splits) =
                  search_loop-Splits fuel (mid + 1) stop (omega arith) (omega arith) k early'
                    late in
                (idx, ground (arith, m, below, r), bound, splits)
            | inr not_below ↦ elim (Bool-cases (lt seconds t)) [
              | inl above ↦
                  let late' : Late mid =
                    λ i u p e. ground (arith, up mid i t u, lt_trans seconds t u) in
                  let (idx, r, bound, splits) =
                    search_loop-Splits fuel start mid (omega arith) (omega arith) (omega arith)
                      early late' in
                  (idx, ground (arith, m, not_below, above, r), bound, splits)
              | inr not_above ↦
                  let same = lt_total t seconds not_below not_above in
                  (
                    mid + exact_offset,
                    ground (arith, m, not_below, not_above),
                    omega arith,
                    Splits-exact mid (ground (arith, m, same)),
                  )
            ]
          ]
    ]

  pub lt-length_of_get_elem? :
      (xs : List Float) (i : ℕ) {t : Float} → get_elem? xs i ≡ some t → i < length xs
  lt-length_of_get_elem? [] i e = cc
  lt-length_of_get_elem? (x ∷ xs) zero e = omega arith
  lt-length_of_get_elem? (x ∷ xs) (suc i) e = omega (arith, lt-length_of_get_elem? xs i e)

  Splits-all :
      (seconds last : Float) (exact_offset end : ℕ)
      → IsIncreasing
      → length frames ≡ suc end
      → get_elem? frames end ≡ some last
      → lt last seconds ≡ true
      → Splits seconds exact_offset (end + 1)
  Splits-all seconds last exact_offset end up n m h i t e = ground (
    arith,
    lt-length_of_get_elem? frames i e,
    up i end t last,
    lt_trans t last seconds,
    lt_trans seconds t seconds,
    lt_irrefl seconds,
  )

  -- Among increasing keyframes, of which there is one at least, `closestFrameIndex` finds the index
  -- that parts those before the time from the others; a keyframe at the time itself counts as
  -- before it if the offset is 1.
  pub closest_frame_index-Splits :
      (seconds : Float) (exact_offset : ℕ)
      → exact_offset ≤ 1
      → 0 < length frames
      → IsIncreasing
      → (idx : ℕ) × (closest_frame_index floats frames seconds exact_offset ≡ some idx)
        × (idx ≤ length frames)
        × Splits seconds exact_offset idx
  unfolding closest_frame_index
  closest_frame_index-Splits seconds exact_offset small some' up =
      let end = length frames - 1 in
      let n : length frames ≡ suc end = omega arith in
      let (last, m) = get_elem?-some frames end (omega arith) in
      elim (Bool-cases (lt last seconds)) [
        | inl after ↦ (
          end + 1,
          ground (arith, n, m, after),
          omega arith,
          Splits-all seconds last exact_offset end up n m after,
        )
        | inr within ↦
            let (idx, r, bound, splits) =
              search_loop-Splits seconds exact_offset small up (suc (length frames)) 0
                (length frames) (omega arith) (omega arith) (omega arith)
                (λ i t h e. absurd (omega arith))
                (λ i t h e. absurd (omega (arith, lt-length_of_get_elem? frames i e))) in
            (idx, ground (arith, n, m, within, r), bound, splits)
      ]
