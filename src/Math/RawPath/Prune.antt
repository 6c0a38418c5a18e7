-- ===== src/Math/RawPath/Prune.antt =====
-- What pruneEmptySegments (src/math/raw_path.cpp) keeps: the loop within the arrays drops exactly
-- the segments whose points all equal the point before them.
use rive_cpp_legacy.Prelude.{
  ◌≡◌, refl, inl, inr, Bool, true, List, [], ◌∷◌, ◌++◌, Option, none, some, length, get_elem?,
  get_elem?-append_right, get_elem?-append_length, last_of, if◌then◌else◌, Bool-cases,
}
use rive_cpp_legacy.Prelude.Fallible.{◌>>=◌}
use rive_cpp_legacy.Math.RawPath.{Plane, Vec2D}
use rive_cpp_legacy.Math.RawPath.Segments.{
  Segment, move, line, quad, cubic, close, verb_of, points_of,
}
use rive_cpp_legacy.Math.RawPath.Compact.{differ, differs_from_last, is_kept}

module _ (plane : Plane) where
  abbrev differs_from : Option (Vec2D plane) → Vec2D plane → Option Bool
  differs_from none a = none
  differs_from (some p) a = some (differ plane a p)

  -- Whether a segment behind a point is kept; `none` where that would be read and there is none.
  abbrev pub keeps : Option (Vec2D plane) → Segment (Vec2D plane) → Option Bool
  keeps pen (move a) = some true
  keeps pen close = some true
  keeps pen (line a) = differs_from pen a
  keeps pen (quad a b) = if differ plane b a then some true else differs_from pen a
  keeps pen (cubic a b c) =
      if differ plane c b
      then some true
      else if differ plane b a
      then some true
      else differs_from pen a

  -- The segments that are kept.
  abbrev pub pruned :
      Option (Vec2D plane) → List (Segment (Vec2D plane)) → Option (List (Segment (Vec2D plane)))
  pruned pen [] = some []
  pruned pen (s ∷ segs) = do
    kept ← keeps pen s
    rest ← pruned (last_of pen (points_of s)) segs
    some (if kept then s ∷ rest else rest)

  last_of-eq :
      (x : Vec2D plane) (xs rest : List (Vec2D plane))
      → (p : Vec2D plane) × (last_of (some x) xs ≡ some p)
        × (get_elem? (x ∷ (xs ++ rest)) (length xs) ≡ some p)
  last_of-eq x [] rest = (x, refl, refl)
  last_of-eq x (y ∷ ys) rest = last_of-eq y ys rest

  differs_from_last-eq :
      (before rest : List (Vec2D plane)) (a : Vec2D plane)
      → differs_from_last plane (before ++ a ∷ rest) (length before)
        ≡ differs_from (last_of none before) a
  differs_from_last-eq [] rest a = refl
  differs_from_last-eq (x ∷ xs) rest a =
      let (p, last, at) = last_of-eq x xs (a ∷ rest) in
      rw (last, at, get_elem?-append_length xs rest a) refl

  pub is_kept-keeps :
      (s : Segment (Vec2D plane)) (before rest : List (Vec2D plane))
      → is_kept plane (before ++ (points_of s ++ rest)) (verb_of s) (length before)
        ≡ keeps (last_of none before) s
  unfolding is_kept
  is_kept-keeps (move a) before rest = refl
  is_kept-keeps close before rest = refl
  is_kept-keeps (line a) before rest = differs_from_last-eq before rest a
  is_kept-keeps (quad a b) before rest =
      rw
        (
          get_elem?-append_right before (a ∷ b ∷ rest) 1,
          get_elem?-append_length before (b ∷ rest) a,
          differs_from_last-eq before (b ∷ rest) a,
        )
        refl
  is_kept-keeps (cubic a b c) before rest =
      rw
        (
          get_elem?-append_right before (a ∷ b ∷ c ∷ rest) 2,
          get_elem?-append_right before (a ∷ b ∷ c ∷ rest) 1,
        )
        (elim (Bool-cases (differ plane c b)) [
          | inl away ↦ rw away refl
          | inr same ↦
              rw
                (
                  same,
                  get_elem?-append_length before (b ∷ c ∷ rest) a,
                  differs_from_last-eq before (b ∷ c ∷ rest) a,
                )
                refl
        ])
