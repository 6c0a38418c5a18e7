-- ===== src/Animation/Blend.antt =====
-- BlendState1DInstance (src/animation/blend_state_1d_instance.cpp): which of its animations a value
-- mixes, and how much of each. An animation is its `blendAnimation()->value()`.
pub mod Mixes
use rive_cpp_legacy.Prelude.{
  ℕ, zero, suc, ◌≡◌, ◌↔◌, Bool, true, false, List, [], Option, none, some, if◌then◌else◌, length,
  get_elem?, map,
}
use rive_cpp_legacy.Animation.Keyframes.{Floats, search_loop}

-- Floats without NaN, with their arithmetic.
pub record Weights : Type 1 where
  pub floats : Floats
  pub eq : floats.Float → floats.Float → Bool
  pub eq_iff : (a b : floats.Float) → (eq a b ≡ true) ↔ (a ≡ b)
  pub zero_weight : floats.Float
  pub one_weight : floats.Float
  pub div : floats.Float → floats.Float → floats.Float

module _ (weights : Weights) where
  open weights use {floats, eq, zero_weight, one_weight, div}
  open floats use {sub}

  abbrev pub Float : Type 0
  Float = floats.Float

  -- `animationIndex`. Its loop is that of `closestFrameIndex`, with no offset where it meets the
  -- value.
  unfoldable pub animation_index : List Float → Float → Option ℕ
  unfolding search_loop
  animation_index values value =
      search_loop floats values value 0 (suc (length values)) 0 (length values)

  -- m_From of an index.
  abbrev pub before : List Float → ℕ → Option Float
  before values zero = none
  before values (suc index) = get_elem? values index

  -- `mix` and `mixFrom` of m_To and m_From.
  abbrev pub mixes : Option Float → Option Float → Float → Float × Float
  mixes none from value = (one_weight, one_weight)
  mixes (some to) none value = (one_weight, one_weight)
  mixes (some to) (some from) value =
      let mix = div (sub value from) (sub to from) in
      if eq to from then (one_weight, one_weight) else (mix, sub one_weight mix)

  abbrev pub is_at : Option Float → Float → Bool
  is_at none value = false
  is_at (some to) value = eq value to

  abbrev pub mix_of : Option Float → Option Float → Float × Float → Float → Float
  mix_of to from (mix, mix_from) value =
      if is_at to value then mix else if is_at from value then mix_from else zero_weight

  -- What `advance` sets the mixes of the animations to.
  unfoldable pub advance_mixes : List Float → Float → Option (List Float)
  unfolding animation_index
  advance_mixes values value = elim (animation_index values value) [
    | none ↦ none
    | some index ↦
        let to = get_elem? values index in
        let from = before values index in some (map (mix_of to from (mixes to from value)) values)
  ]
