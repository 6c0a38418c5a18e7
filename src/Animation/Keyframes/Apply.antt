-- ===== src/Animation/Keyframes/Apply.antt =====
-- Which keyframes `KeyedProperty::apply` (src/animation/keyed_property.cpp) uses.
use rive_cpp_legacy.Prelude.{
  ℕ, zero, suc, ◌≤◌, ◌<◌, ◌≡◌, ◌≢◌, refl, sym, ap, ◌∙◌, ◌⊎◌, inl, inr, true, false, List, none,
  some, arith, length, get_elem?, Bool-cases, Option-cases, ltb, ◌==◌, ==_iff,
}
use rive_cpp_legacy.Animation.Keyframes.{Floats, Applied, apply_from, apply_at}
use rive_cpp_legacy.Animation.Keyframes.Search.{
  get_elem?-some, IsIncreasing, Splits, closest_frame_index-Splits,
}

module _ (floats : Floats) (frames : List floats.Float) (interpolation_type : ℕ → ℕ) where
  open floats use {Float, lt, lt_irrefl, lt_total}

  -- The keyframe at `i` lies before the time, and the next one behind it.
  abbrev pub IsBetween : ℕ → Float → Type 0
  IsBetween i seconds =
      (t u : Float) × (get_elem? frames i ≡ some t)
      × (get_elem? frames (suc i) ≡ some u)
      × (lt t seconds ≡ true)
      × (lt seconds u ≡ true)

  -- One keyframe is used at its own time, before the first and behind the last, and between two where
  -- the first of them holds its value; else the two are interpolated.
  abbrev pub IsRight : Float → Applied → Type 0
  IsRight seconds (Applied.apply_frame i) =
      ((i ≡ 0) × ((t : Float) → get_elem? frames 0 ≡ some t → lt t seconds ≡ false))
      ⊎ ((get_elem? frames i ≡ some seconds)
          ⊎ (((t : Float) × (get_elem? frames i ≡ some t)
                × (lt t seconds ≡ true)
                × (suc i ≡ length frames))
              ⊎ (IsBetween i seconds × (interpolation_type i ≡ 0))))
  IsRight seconds (Applied.apply_interpolation i j) =
      (j ≡ suc i) × IsBetween i seconds × (interpolation_type i ≢ 0)

  apply_from-IsRight :
      (seconds : Float) (idx : ℕ)
      → idx ≤ length frames
      → Splits floats frames seconds 0 idx
      → (applied : Applied) × (apply_from floats frames interpolation_type seconds (some idx)
          ≡ some applied)
        × IsRight seconds applied
  unfolding apply_from
  apply_from-IsRight seconds zero le splits =
      (Applied.apply_frame 0, refl, inl (refl, λ t e. splits 0 t e))
  apply_from-IsRight seconds (suc i) le splits =
      let (t, here) = get_elem?-some frames i (omega (arith, le)) in
      let earlier : lt t seconds ≡ true = ground (arith, splits i t here) in
      elim (Option-cases (get_elem? frames (suc i))) [
        | inl end ↦ (
          Applied.apply_frame i,
          rw (end, apply_from) refl,
          inr (inr (inl (t, here, earlier, last end))),
        )
        | inr (u, next) ↦
            let not_earlier : lt u seconds ≡ false = ground (arith, splits (suc i) u next) in
            elim (Bool-cases (lt seconds u)) [
              | inr same ↦ (
                Applied.apply_frame (suc i),
                rw (next, apply_from, same, not_earlier) refl,
                inr (inl (next ∙ ap some (lt_total u seconds not_earlier same))),
              )
              | inl later ↦ elim (Bool-cases (interpolation_type i == 0)) [
                | inl holds ↦ (
                  Applied.apply_frame i,
                  rw (next, apply_from, later, holds) refl,
                  inr (inr (inr ((t, u, here, next, earlier, later), (==_iff _ 0).0 holds))),
                )
                | inr moves ↦ (
                  Applied.apply_interpolation i (suc i),
                  rw (next, apply_from, later, moves) refl,
                  (refl, (t, u, here, next, earlier, later), λ e. ground (arith, moves, e)),
                )
              ]
            ]
      ]
    where
      last : get_elem? frames (suc i) ≡ none → suc i ≡ length frames
      last end = elim (Bool-cases (ltb (suc i) (length frames))) [
        | inl more ↦
            let (u, there) = get_elem?-some frames (suc i) (ground (arith, more)) in
            absurd (some_none u (sym there ∙ end))
        | inr no_more ↦ ground (arith, no_more, le)
      ]
        where
          some_none : (u : Float) → some u ≡ none → ⊥
          some_none u e = cc

  -- Among at least one keyframe with increasing times, `apply` uses the keyframe at the time, or the
  -- first one before all, or the last one behind all; between two keyframes it uses the one before
  -- if that has no interpolation, and else interpolates the two.
  pub apply_at-IsRight :
      (seconds : Float)
      → 0 < length frames
      → IsIncreasing floats frames
      → (applied : Applied) × (apply_at floats frames interpolation_type seconds ≡ some applied)
        × IsRight seconds applied
  unfolding apply_at
  apply_at-IsRight seconds some' up =
      let (idx, e, le, splits) =
        closest_frame_index-Splits floats frames seconds 0 (omega arith) some' up in
      rw e (apply_from-IsRight seconds idx le splits)
