-- ===== src/Animation/Blend/Mixes.antt =====
-- The mixes that BlendState1DInstance::advance (src/animation/blend_state_1d_instance.cpp) sets.
use rive_cpp_legacy.Prelude.{
  ℕ, zero, suc, ◌≤◌, ◌<◌, ◌≡◌, ◌≢◌, refl, sym, ap, ◌∙◌, inl, inr, false, List, [], ◌∷◌, Option,
  none, some, if◌then◌else◌, length, get_elem?, map, arith, ◌==◌, ==_iff, Bool-cases, Option-cases,
}
use rive_cpp_legacy.Animation.Keyframes.Search.{
  IsIncreasing, Splits, search_loop-Splits, get_elem?-some, lt-length_of_get_elem?,
}
use rive_cpp_legacy.Animation.Blend.{
  Weights, Float, animation_index, before, mixes, is_at, mix_of, advance_mixes,
}

get_elem?-map :
    {A B : Type 0} (f : A → B) (xs : List A) (i : ℕ) (x : A)
    → get_elem? xs i ≡ some x
    → get_elem? (map f xs) i ≡ some (f x)
get_elem?-map f [] i x e = cc
get_elem?-map f (y ∷ ys) zero x e = ground (arith, e)
get_elem?-map f (y ∷ ys) (suc i) x e = get_elem?-map f ys i x e

some_ne_none : {A : Type 0} (a : A) → some a ≢ none
some_ne_none a e = cc

module _ (weights : Weights) (values : List (Float weights)) where
  open weights use {floats, eq, eq_iff, zero_weight, one_weight, div}
  open floats use {sub}

  -- The parts of the animation at the index and of the one before it: the whole at either end, else
  -- where the value lies between the two.
  abbrev pub shares :
      Option (Float weights)
      → Option (Float weights)
      → Float weights
      → Float weights × Float weights
  shares none from value = (one_weight, one_weight)
  shares (some to) none value = (one_weight, one_weight)
  shares (some to) (some from) value =
      let part = div (sub value from) (sub to from) in (part, sub one_weight part)

  mixes-shares_apart :
      (to from : Option (Float weights)) (value : Float weights)
      → ((t f : Float weights) → to ≡ some t → from ≡ some f → eq t f ≡ false)
      → mixes weights to from value ≡ shares to from value
  mixes-shares_apart none from value apart = refl
  mixes-shares_apart (some to) none value apart = refl
  mixes-shares_apart (some to) (some from) value apart = rw (apart to from refl refl) refl

  abbrev pub shares_at : Float weights → ℕ → Float weights × Float weights
  shares_at value index = shares (get_elem? values index) (before weights values index) value

  advance_mixes_at :
      (value : Float weights) (index : ℕ)
      → animation_index weights values value ≡ some index
      → advance_mixes weights values value
        ≡ some (
            map
              (mix_of weights
                (get_elem? values index)
                (before weights values index)
                (mixes weights (get_elem? values index) (before weights values index) value))
              values)
  unfolding advance_mixes
  advance_mixes_at value index found =
      ap
        (λ o. elim o [
          | none ↦ none
          | some index ↦ some (
              map
                (mix_of weights (get_elem? values index) (before weights values index)
                  (mixes weights (get_elem? values index) (before weights values index) value))
                values)
        ])
        found

  module _ (up : IsIncreasing floats values) where
    same_place :
        (i j : ℕ) (v w : Float weights)
        → get_elem? values i ≡ some v
        → get_elem? values j ≡ some w
        → eq v w ≡ (i == j)
    same_place i j v w ei ej =
        ground (
          arith,
          up i j v w,
          up j i w v,
          floats.lt_irrefl v,
          floats.lt_irrefl w,
          eq_iff v w,
          ei,
          ej,
        )

    is_at-index :
        (i index : ℕ) (v : Float weights)
        → get_elem? values i ≡ some v
        → is_at weights (get_elem? values index) v ≡ (i == index)
    is_at-index i index v e = elim (Option-cases (get_elem? values index)) [
      | inl nothing ↦ elim (Bool-cases (i == index)) [
        | inl here ↦
            absurd
              (some_ne_none v (sym e ∙ ap (get_elem? values) ((==_iff i index).0 here) ∙ nothing))
        | inr other ↦ ap (λ o. is_at weights o v) nothing ∙ sym other
      ]
      | inr (to, there) ↦ rw there (same_place i index v to e there)
    ]

    is_at-before :
        (i index : ℕ) (v : Float weights)
        → get_elem? values i ≡ some v
        → is_at weights (before weights values index) v ≡ (suc i == index)
    is_at-before i zero v e = ground arith
    is_at-before i (suc index) v e = is_at-index i index v e ∙ ground arith

    mixes-shares :
        (value : Float weights) (index : ℕ)
        → mixes weights (get_elem? values index) (before weights values index) value
          ≡ shares_at value index
    mixes-shares value zero =
        mixes-shares_apart (get_elem? values 0) none value
          (λ t f et ef. absurd (some_ne_none f (sym ef)))
    mixes-shares value (suc index) =
        mixes-shares_apart (get_elem? values (suc index)) (get_elem? values index) value
          (λ t f et ef. same_place (suc index) index t f et ef ∙ ground arith)

  -- Among animations with increasing values, `advance` finds the index that parts those below the
  -- value from the others, and it mixes only the animation at the index and the one before it: each
  -- as a whole if the other one is missing, else by where the value lies between theirs.
  pub advance_mixes-shares :
      (value : Float weights)
      → IsIncreasing floats values
      → (index : ℕ) × (mixed : List (Float weights)) × (advance_mixes weights values value
          ≡ some mixed)
        × (index ≤ length values)
        × Splits floats values value 0 index
        × ((i : ℕ)
            → i < length values
            → get_elem? mixed i
              ≡ some (
                  if i == index
                  then (shares_at value index).0
                  else if suc i == index
                  then (shares_at value index).1
                  else zero_weight))
  unfolding advance_mixes animation_index
  advance_mixes-shares value up =
      let (index, found, bound, splits) =
        search_loop-Splits floats values value 0 (omega arith) up (suc (length values)) 0
          (length values) (omega arith) (omega arith) (omega arith)
          (λ i t h e. absurd (omega arith))
          (λ i t h e. absurd (omega (arith, h, lt-length_of_get_elem? floats values values i e))) in
      let to = get_elem? values index in
      let from = before weights values index in
      (
        index,
        map (mix_of weights to from (mixes weights to from value)) values,
        advance_mixes_at value index found,
        bound,
        splits,
        λ i h.
            let (v, e) = get_elem?-some values i h in
            get_elem?-map (mix_of weights to from (mixes weights to from value)) values i v e
            ∙ ap some (
                ap (λ m. mix_of weights to from m v) (mixes-shares up value index)
                ∙ ap
                    (λ b.
                      if b
                      then (shares_at value index).0
                      else if is_at weights from v
                      then (shares_at value index).1
                      else zero_weight)
                    (is_at-index up i index v e)
                ∙ ap
                    (λ b.
                      if i == index
                      then (shares_at value index).0
                      else if b
                      then (shares_at value index).1
                      else zero_weight)
                    (is_at-before up i index v e)),
      )
