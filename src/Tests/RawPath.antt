-- ===== src/Tests/RawPath.antt =====
-- Paths over whole numbers.
use rive_cpp_legacy.Prelude.{
  ℕ, ◌+◌, ◌-◌, ◌*◌, ◌≡◌, refl, arith, false, not, List, [], ◌∷◌, ◌++◌, inr, none, some, ◌==◌,
}
use rive_cpp_legacy.Prelude.Fallible.{◌>>=◌}
use rive_cpp_legacy.Math.RawPath.{
  PathDirection, Plane, RawPath, Vec2D, new_path, line_to, path_verb_to_point_count,
  pts_advance_after_verb, PathVerb, count_move_tos,
}
use rive_cpp_legacy.Math.RawPath.Segments.{
  Segment, move, line, close, open_after, start_after, drawn, verbs_of,
}
use rive_cpp_legacy.Math.RawPath.Draw.{
  Models, origin, perform, performs, perform-Models, performs-Models, new_path-Models,
}
use rive_cpp_legacy.Math.RawPath.Shapes.{Shape, add_shape, outline, add_shape-Models}
use rive_cpp_legacy.Math.RawPath.Iterate.{morph, add_to}
use rive_cpp_legacy.Math.RawPath.Replay.{map_segments, commands_of, morph-Models, add_to-commands}
use rive_cpp_legacy.Math.RawPath.Prune.{pruned}
use rive_cpp_legacy.Math.RawPath.Compact.{prune_empty_segments}
use rive_cpp_legacy.Math.RawPath.PruneEmpty.{with_segments, prune_empty_segments-pruned}
use rive_cpp_legacy.Math.RawPath.Stale.{Copy, copy_of, copy_of_undefined, prune_undefined}

abbrev grid : Plane
grid = record {
  Float = ℕ;
  zero_f = 0;
  one = 10;
  half = 1;
  circle = 5;
  two_thirds = 2;
  neg = λ a. a;
  add = ◌+◌;
  sub = ◌-◌;
  mul = ◌*◌;
  ne = λ a b. not (a == b);
}

abbrev triangle : List (Segment (Vec2D grid))
triangle = move (1, 1) ∷ line (4, 1) ∷ line (4, 1) ∷ line (1, 5) ∷ close ∷ []

abbrev triangle_path : RawPath grid
triangle_path = record {
  points = (1, 1) ∷ (4, 1) ∷ (4, 1) ∷ (1, 5) ∷ [];
  verbs = verbs_of triangle;
  last_move = some 0;
  is_open = false;
}

drawn-triangle : performs grid triangle (new_path grid) ≡ some triangle_path
unfolding performs
drawn-triangle = refl

triangle-Models : Models grid triangle_path triangle
triangle-Models =
    let (path, e, m) =
      performs-Models grid triangle (new_path grid) [] (new_path-Models grid)
        (refl, (refl, (refl, (refl, tt)))) in
    record {
      points_eq = refl;
      verbs_eq = refl;
      open_eq = refl;
      contours = m.contours;
      start_eq = inr refl;
    }

perform-Models_example :
    (path' : RawPath grid) × (perform grid (line (7, 7)) triangle_path ≡ some path')
    × Models grid path' (
        triangle
        ++ drawn (open_after false triangle) (start_after (origin grid) triangle) (line (7, 7)))
perform-Models_example = perform-Models grid (line (7, 7)) triangle_path triangle triangle-Models

abbrev square : Shape grid
square = Shape.rect (record { min_x = 0; min_y = 0; max_x = 9; max_y = 9 }) PathDirection.clockwise

add_shape-Models_example :
    (path' : RawPath grid) × (add_shape grid square triangle_path ≡ some path')
    × Models grid path' (triangle ++ outline grid square)
add_shape-Models_example = add_shape-Models grid square triangle_path triangle triangle-Models

abbrev shifted : Vec2D grid → Vec2D grid
shifted (x, y) = (x + 2, y + 3)

morph-Models_example :
    (path' : RawPath grid) × (morph grid shifted triangle_path ≡ some path')
    × Models grid path' (map_segments shifted triangle)
morph-Models_example = morph-Models grid shifted triangle_path triangle triangle-Models

add_to-commands_example : add_to grid triangle_path ≡ some (commands_of grid (origin grid) triangle)
add_to-commands_example = add_to-commands grid triangle_path triangle triangle-Models

prune_triangle :
    pruned grid none triangle ≡ some (move (1, 1) ∷ line (4, 1) ∷ line (1, 5) ∷ close ∷ [])
prune_triangle = refl

prune_empty_segments-pruned_example :
    prune_empty_segments grid 0 0 triangle_path
    ≡ (pruned grid none triangle >>= λ out. some (with_segments grid triangle_path out))
prune_empty_segments-pruned_example =
    prune_empty_segments-pruned grid [] triangle triangle_path refl refl

copy_of_undefined_example : line_to grid (7, 7) (copy_of grid Copy.swapped triangle_path) ≡ none
copy_of_undefined_example = copy_of_undefined grid Copy.swapped triangle_path (7, 7) (λ e. cc)

abbrev two_closed : List (Segment (Vec2D grid))
two_closed = move (1, 1) ∷ line (1, 1) ∷ close ∷ move (3, 3) ∷ close ∷ []

abbrev two_closed_path : RawPath grid
two_closed_path = record {
  points = (1, 1) ∷ (1, 1) ∷ (3, 3) ∷ [];
  verbs = verbs_of two_closed;
  last_move = some 2;
  is_open = false;
}

-- The path that the calls draw.
two_closed_drawn : performs grid two_closed (new_path grid) ≡ some two_closed_path
unfolding performs
two_closed_drawn = refl

prune_undefined_example :
    (prune_empty_segments grid 0 0 two_closed_path >>= line_to grid (7, 7)) ≡ none
prune_undefined_example =
    prune_undefined grid two_closed (move (1, 1) ∷ close ∷ move (3, 3) ∷ close ∷ []) two_closed_path
      2 (7, 7) refl refl refl refl two_pruned (omega arith) (omega arith)
  where
    two_pruned : pruned grid none two_closed ≡ some (move (1, 1) ∷ close ∷ move (3, 3) ∷ close ∷ [])
    two_pruned = refl

-- The run of the loop itself.
prune_run :
    prune_empty_segments grid 0 0 triangle_path
    ≡ some (record triangle_path {
      points = (1, 1) ∷ (4, 1) ∷ (1, 5) ∷ [];
      verbs = PathVerb.move ∷ PathVerb.line ∷ PathVerb.line ∷ PathVerb.close ∷ [];
    })
unfolding prune_empty_segments
prune_run = refl

-- The table of counts agrees with the iterator.
point_counts : (v : PathVerb) → path_verb_to_point_count v ≡ some (pts_advance_after_verb v)
unfolding path_verb_to_point_count pts_advance_after_verb
point_counts PathVerb.move = refl
point_counts PathVerb.line = refl
point_counts PathVerb.quad = refl
point_counts PathVerb.cubic = refl
point_counts PathVerb.close = refl

count_triangle : count_move_tos grid triangle_path ≡ 1
unfolding count_move_tos
count_triangle = refl
