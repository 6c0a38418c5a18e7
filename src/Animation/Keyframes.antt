-- ===== src/Animation/Keyframes.antt =====
-- KeyedProperty (src/animation/keyed_property.cpp): which keyframes a time and a step of time meet.
-- A keyframe is its `seconds()`. A float is a value of a type with `<`; there is no NaN.
pub mod Search
pub mod Report
pub mod Apply
use rive_cpp_legacy.Prelude.{
  ℕ, zero, suc, ◌+◌, ◌-◌, ◌/◌, ◌≡◌, Bool, true, false, not, ◌&&◌, List, [], ◌∷◌, Option, none, some,
  ltb, leb, if◌then◌else◌, length, get_elem?, ◌==◌,
}

-- Floats without NaN, compared by `<`.
pub record Floats : Type 1 where
  pub Float : Type 0
  pub lt : Float → Float → Bool
  pub sub : Float → Float → Float
  pub lt_irrefl : (a : Float) → lt a a ≡ false
  pub lt_trans : (a b c : Float) → lt a b ≡ true → lt b c ≡ true → lt a c ≡ true
  pub lt_total : (a b : Float) → lt a b ≡ false → lt b a ≡ false → a ≡ b

-- Which keyframe sets the property of the object, or which two it lies between.
pub data Applied : Type 0 where
  apply_frame : ℕ → Applied
  apply_interpolation : ℕ → ℕ → Applied

module _ (floats : Floats) where
  open floats use {Float, lt, sub}

  -- The `while` loop over `start` and `end`, with `stop` for `end + 1`. `none` is a read outside
  -- the vector, or the end of the fuel.
  unfoldable pub search_loop : List Float → Float → ℕ → ℕ → ℕ → ℕ → Option ℕ
  search_loop frames seconds exact_offset zero start stop = none
  search_loop frames seconds exact_offset (suc fuel) start stop =
      let mid = (start + stop - 1) / 2 in
      let left = search_loop frames seconds exact_offset fuel start mid in
      let right = search_loop frames seconds exact_offset fuel (mid + 1) stop in
      if leb stop start then some start else elim (get_elem? frames mid) [
        | none ↦ none
        | some closest_seconds ↦
            if lt closest_seconds seconds
            then right
            else if lt seconds closest_seconds
            then left
            else some (mid + exact_offset)
      ]

  -- With no keyframe the vector is read at index -1.
  unfoldable pub closest_frame_index : List Float → Float → ℕ → Option ℕ
  unfolding search_loop
  closest_frame_index frames seconds exact_offset = elim (length frames) [
    | zero ↦ none
    | suc end ↦ elim (get_elem? frames end) [
      | none ↦ none
      | some last ↦
          if lt last seconds
          then some (end + 1)
          else search_loop frames seconds exact_offset (suc (length frames)) 0 (length frames)
    ]
  ]

  -- The last loop of `reportKeyedCallbacks`, with the rounds that are left: the keyframe that each
  -- report is about, by its index, and the time that it names. `none` is a read outside the vector.
  unfoldable pub report_loop : List Float → Float → ℕ → ℕ → Option (List (ℕ × Float))
  report_loop frames seconds_to zero idx = some []
  report_loop frames seconds_to (suc n) idx =
      let rest = report_loop frames seconds_to n (suc idx) in
      elim (get_elem? frames idx) [
        | none ↦ none
        | some seconds ↦ elim rest [
          | none ↦ none
          | some reports ↦ some ((idx, sub seconds_to seconds) ∷ reports)
        ]
      ]

  -- `reportKeyedCallbacks`: its reports; `none` as above.
  unfoldable pub report_keyed_callbacks :
      List Float → Float → Float → Bool → Option (List (ℕ × Float))
  unfolding closest_frame_index report_loop
  report_keyed_callbacks frames seconds_from seconds_to is_at_start_frame =
      let is_forward = not (lt seconds_to seconds_from) in
      let from_exact_offset : ℕ =
        if is_forward
        then if is_at_start_frame then 0 else 1
        else if is_at_start_frame
        then 1
        else 0 in
      let to_exact_offset : ℕ = if is_forward then 1 else 0 in
      if not (lt seconds_from seconds_to) && not (lt seconds_to seconds_from)
      then some []
      else elim (closest_frame_index frames seconds_from from_exact_offset) [
        | none ↦ none
        | some idx ↦ elim (closest_frame_index frames seconds_to to_exact_offset) [
          | none ↦ none
          | some idx_to ↦
              if ltb idx_to idx
              then report_loop frames seconds_to (idx - idx_to) idx_to
              else report_loop frames seconds_to (idx_to - idx) idx
        ]
      ]

  -- `apply` from the index on; the index 0 is found only where there is a keyframe.
  unfoldable pub apply_from : List Float → (ℕ → ℕ) → Float → Option ℕ → Option Applied
  apply_from frames interpolation_type seconds none = none
  apply_from frames interpolation_type seconds (some zero) = some (Applied.apply_frame 0)
  apply_from frames interpolation_type seconds (some (suc idx)) =
      elim (get_elem? frames (suc idx)) [
        | none ↦ some (Applied.apply_frame idx)
        | some to_seconds ↦
            if not (lt seconds to_seconds) && not (lt to_seconds seconds)
            then some (Applied.apply_frame (suc idx))
            else if interpolation_type idx == 0
            then some (Applied.apply_frame idx)
            else some (Applied.apply_interpolation idx (suc idx))
      ]

  unfoldable pub apply_at : List Float → (ℕ → ℕ) → Float → Option Applied
  unfolding closest_frame_index apply_from
  apply_at frames interpolation_type seconds =
      apply_from frames interpolation_type seconds (closest_frame_index frames seconds 0)
