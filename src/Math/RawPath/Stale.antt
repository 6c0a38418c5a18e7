-- ===== src/Math/RawPath/Stale.antt =====
-- Where m_lastMoveIdx and m_contourIsOpen of a RawPath (src/math/raw_path.cpp) no longer fit its
-- points: after `transform`, `swap`, `addPath` and pruneEmptySegments, which leave them as they are.
use rive_cpp_legacy.Prelude.{
  ℕ, zero, suc, ◌≤◌, ◌<◌, length, get_elem?, arith, ◌≡◌, ◌≢◌, refl, false, List, [], ◌∷◌, map,
  Option, none, some,
}
use rive_cpp_legacy.Prelude.Fallible.{◌>>=◌}
use rive_cpp_legacy.Math.RawPath.{
  PathVerb, Plane, RawPath, Vec2D, new_path, line_to, transform, swap, add_path,
}
use rive_cpp_legacy.Math.RawPath.Segments.{Segment, verbs_of, all_points}
use rive_cpp_legacy.Math.RawPath.PruneEmpty.{prune_empty_segments-pruned}
use rive_cpp_legacy.Math.RawPath.Prune.{pruned}
use rive_cpp_legacy.Math.RawPath.Compact.{prune_empty_segments}

module _ (plane : Plane) where
  -- The three ways in which a new path gets the points of another without drawing them.
  pub data Copy : Type 0 where
    transformed : (Vec2D plane → Vec2D plane) → Copy
    swapped : Copy
    added : Option (Vec2D plane → Vec2D plane) → Copy

  unfoldable pub copy_of : Copy → RawPath plane → RawPath plane
  unfolding transform swap add_path
  copy_of (transformed m) path = transform plane m path
  copy_of swapped path = (swap plane (new_path plane) path).0
  copy_of (added mat) path = (add_path plane path mat (new_path plane)).0

  undrawn :
      (points : List (Vec2D plane)) (verbs : List PathVerb) (a : Vec2D plane)
      → points ≢ []
      → line_to plane a
          (record { points = points; verbs = verbs; last_move = none; is_open = false })
        ≡ none
  unfolding line_to
  undrawn [] verbs a h = absurd (h refl)
  undrawn (p ∷ points) verbs a h = refl

  copy_of-ne :
      (f : Vec2D plane → Vec2D plane) (points : List (Vec2D plane))
      → points ≢ []
      → map f points ≢ []
  copy_of-ne f [] h e = h refl
  copy_of-ne f (p ∷ points) h e = cc

  -- A new path that got the points of a path with points by `transform`, `swap` or `addPath` has a
  -- m_lastMoveIdx that was never set: a line that is drawn next reads it.
  pub copy_of_undefined :
      (copy : Copy) (path : RawPath plane) (a : Vec2D plane)
      → path.points ≢ []
      → line_to plane a (copy_of copy path) ≡ none
  unfolding copy_of
  copy_of_undefined (transformed m) path a h =
      undrawn (map m path.points) path.verbs a (copy_of-ne m _ h)
  copy_of_undefined swapped path a h = undrawn path.points path.verbs a h
  copy_of_undefined (added none) path a h = undrawn path.points path.verbs a h
  copy_of_undefined (added (some m)) path a h =
      undrawn (map m path.points) path.verbs a (copy_of-ne m _ h)

  get_elem?-out : {A : Type 0} (xs : List A) (i : ℕ) → length xs ≤ i → get_elem? xs i ≡ none
  get_elem?-out [] i h = refl
  get_elem?-out (x ∷ xs) zero h = absurd (omega (arith, h))
  get_elem?-out (x ∷ xs) (suc i) h = get_elem?-out xs i (omega (arith, h))

  behind_the_points :
      (points : List (Vec2D plane)) (verbs : List PathVerb) (m : ℕ) (d : Vec2D plane)
      → 0 < length points
      → length points ≤ m
      → line_to plane d
          (record { points = points; verbs = verbs; last_move = some m; is_open = false })
        ≡ none
  unfolding line_to
  behind_the_points [] verbs m d some_left short = elim some_left [ ]
  behind_the_points (p ∷ points) verbs m d some_left short =
      rw (get_elem?-out (p ∷ points) m short, line_to) refl

  -- Where the last contour of a path is closed and pruning leaves it at least one point, but no more
  -- than stood before the last move, m_lastMoveIdx lies behind the points: a line that is drawn next
  -- reads outside them.
  pub prune_undefined :
      (segs out : List (Segment (Vec2D plane))) (path : RawPath plane) (m : ℕ) (d : Vec2D plane)
      → path.verbs ≡ verbs_of segs
      → path.points ≡ all_points segs
      → path.is_open ≡ false
      → path.last_move ≡ some m
      → pruned plane none segs ≡ some out
      → 0 < length (all_points out)
      → length (all_points out) ≤ m
      → (prune_empty_segments plane 0 0 path >>= line_to plane d) ≡ none
  prune_undefined segs out path m d vs ps closed last left some_left short =
      let pruned' = prune_empty_segments-pruned plane [] segs path vs ps in
      rw (pruned', left)
        (rw (closed, last) (behind_the_points (all_points out) (verbs_of out) m d some_left short))
