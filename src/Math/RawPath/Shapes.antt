-- ===== src/Math/RawPath/Shapes.antt =====
-- The shapes that RawPath (src/math/raw_path.cpp) adds, and its reuse by `rewind`.
use rive_cpp_legacy.Prelude.{
  ◌≡◌, refl, ◌∙◌, inl, inr, Option-cases, Bool, true, false, List, [], ◌∷◌, ◌++◌, Option, some,
  if◌then◌else◌,
}
use rive_cpp_legacy.Prelude.Fallible.{◌>>=◌}
use rive_cpp_legacy.Math.RawPath.{
  PathDirection, Plane, RawPath, Vec2D, Aabb, move_to, line_to, add_lines, add_rect, add_poly,
  add_oval, on_oval, reset, rewind,
}
use rive_cpp_legacy.Math.RawPath.Segments.{
  Segment, move, line, cubic, close, open_after, IsContours,
}
use rive_cpp_legacy.Math.RawPath.Draw.{Models, performs, performs-Models}

module _ (plane : Plane) where
  open plane use {zero_f, one, circle, neg}

  abbrev lines_through : List (Vec2D plane) → List (Segment (Vec2D plane))
  lines_through [] = []
  lines_through (a ∷ points) = line a ∷ lines_through points

  abbrev pub polygon : List (Vec2D plane) → Bool → List (Segment (Vec2D plane))
  polygon [] is_closed = []
  polygon (a ∷ points) is_closed =
      move a ∷ lines_through points ++ (if is_closed then close ∷ [] else [])

  -- The corners from the left top one on, clockwise where y points down.
  abbrev pub rectangle : Aabb plane → PathDirection → List (Segment (Vec2D plane))
  rectangle r PathDirection.clockwise =
      polygon
        ((r.min_x, r.min_y) ∷ (r.max_x, r.min_y) ∷ (r.max_x, r.max_y) ∷ (r.min_x, r.max_y) ∷ [])
        true
  rectangle r PathDirection.counterclockwise =
      polygon
        ((r.min_x, r.min_y) ∷ (r.min_x, r.max_y) ∷ (r.max_x, r.max_y) ∷ (r.max_x, r.min_y) ∷ [])
        true

  -- Four arcs from the right end of the oval, over its bottom, left and top, or the other way.
  abbrev pub oval : Aabb plane → PathDirection → List (Segment (Vec2D plane))
  oval r PathDirection.clockwise =
      let at = λ (x : plane.Float) (y : plane.Float). on_oval plane r (x, y) in
      move (at one zero_f)
      ∷ cubic (at one circle) (at circle one) (at zero_f one)
      ∷ cubic (at (neg circle) one) (at (neg one) circle) (at (neg one) zero_f)
      ∷ cubic (at (neg one) (neg circle)) (at (neg circle) (neg one)) (at zero_f (neg one))
      ∷ cubic (at circle (neg one)) (at one (neg circle)) (at one zero_f)
      ∷ close
      ∷ []
  oval r PathDirection.counterclockwise =
      let at = λ (x : plane.Float) (y : plane.Float). on_oval plane r (x, y) in
      move (at one zero_f)
      ∷ cubic (at one (neg circle)) (at circle (neg one)) (at zero_f (neg one))
      ∷ cubic (at (neg circle) (neg one)) (at (neg one) (neg circle)) (at (neg one) zero_f)
      ∷ cubic (at (neg one) circle) (at (neg circle) one) (at zero_f one)
      ∷ cubic (at circle one) (at one circle) (at one zero_f)
      ∷ close
      ∷ []

  add_rect-eq :
      (r : Aabb plane) (dir : PathDirection) (path : RawPath plane)
      → add_rect plane r dir path ≡ performs plane (rectangle r dir) path
  unfolding add_rect performs
  add_rect-eq r PathDirection.clockwise path = refl
  add_rect-eq r PathDirection.counterclockwise path = refl

  add_oval-eq :
      (r : Aabb plane) (dir : PathDirection) (path : RawPath plane)
      → add_oval plane r dir path ≡ performs plane (oval r dir) path
  unfolding add_oval performs
  add_oval-eq r PathDirection.clockwise path = refl
  add_oval-eq r PathDirection.counterclockwise path = refl

  add_lines-eq :
      (points : List (Vec2D plane)) (is_closed : Bool) (path : RawPath plane)
      → (add_lines plane points path >>= λ drawn.
          performs plane (if is_closed then close ∷ [] else []) drawn)
        ≡ performs plane (lines_through points ++ (if is_closed then close ∷ [] else [])) path
  unfolding add_lines performs
  add_lines-eq [] is_closed path = refl
  add_lines-eq (a ∷ points) is_closed path = elim (Option-cases (line_to plane a path)) [
    | inl nothing ↦ rw nothing refl
    | inr (path', e) ↦ rw e (add_lines-eq points is_closed path')
  ]

  add_poly-eq :
      (points : List (Vec2D plane)) (is_closed : Bool) (path : RawPath plane)
      → add_poly plane points is_closed path ≡ performs plane (polygon points is_closed) path
  unfolding add_poly performs
  add_poly-eq [] is_closed path = refl
  add_poly-eq (a ∷ points) true path = add_lines-eq points true (move_to plane a path)
  add_poly-eq (a ∷ points) false path = add_lines-eq points false (move_to plane a path)

  pub data Shape : Type 0 where
    rect : Aabb plane → PathDirection → Shape
    ellipse : Aabb plane → PathDirection → Shape
    poly : List (Vec2D plane) → Bool → Shape

  -- The call that adds a shape.
  unfoldable pub add_shape : Shape → RawPath plane → Option (RawPath plane)
  unfolding add_rect add_oval add_poly
  add_shape (rect r dir) path = add_rect plane r dir path
  add_shape (ellipse r dir) path = add_oval plane r dir path
  add_shape (poly points is_closed) path = add_poly plane points is_closed path

  abbrev pub outline : Shape → List (Segment (Vec2D plane))
  outline (rect r dir) = rectangle r dir
  outline (ellipse r dir) = oval r dir
  outline (poly points is_closed) = polygon points is_closed

  add_shape-eq :
      (shape : Shape) (path : RawPath plane)
      → add_shape shape path ≡ performs plane (outline shape) path
  unfolding add_shape
  add_shape-eq (rect r dir) path = add_rect-eq r dir path
  add_shape-eq (ellipse r dir) path = add_oval-eq r dir path
  add_shape-eq (poly points is_closed) path = add_poly-eq points is_closed path

  lines-IsContours :
      (points : List (Vec2D plane)) (is_closed : Bool)
      → IsContours true (lines_through points ++ (if is_closed then close ∷ [] else []))
  lines-IsContours [] true = (refl, tt)
  lines-IsContours [] false = tt
  lines-IsContours (a ∷ points) is_closed = (refl, lines-IsContours points is_closed)

  outline-IsContours : (shape : Shape) (was_open : Bool) → IsContours was_open (outline shape)
  outline-IsContours (rect r PathDirection.clockwise) was_open = (refl, (refl, (refl, (refl, tt))))
  outline-IsContours (rect r PathDirection.counterclockwise) was_open =
      (refl, (refl, (refl, (refl, tt))))
  outline-IsContours (ellipse r PathDirection.clockwise) was_open =
      (refl, (refl, (refl, (refl, (refl, tt)))))
  outline-IsContours (ellipse r PathDirection.counterclockwise) was_open =
      (refl, (refl, (refl, (refl, (refl, tt)))))
  outline-IsContours (poly [] is_closed) was_open = tt
  outline-IsContours (poly (a ∷ points) is_closed) was_open = lines-IsContours points is_closed

  -- To a path that was drawn so far by such calls, addRect, addOval and addPoly add exactly the
  -- outline of their shape, whether a contour was open or not, and return.
  pub add_shape-Models :
      (shape : Shape) (path : RawPath plane) (segs : List (Segment (Vec2D plane)))
      → Models plane path segs
      → (path' : RawPath plane) × (add_shape shape path ≡ some path')
        × Models plane path' (segs ++ outline shape)
  add_shape-Models shape path segs m =
      let (path', e, m') =
        performs-Models plane (outline shape) path segs m
          (outline-IsContours shape (open_after false segs)) in
      (path', add_shape-eq shape path ∙ e, m')

  -- A path that is rewound or reset is as good as a new one, although it keeps the index of its
  -- last move.
  pub rewind-Models :
      (path : RawPath plane)
      → Models plane (rewind plane path) [] × Models plane (reset plane path) []
  unfolding rewind reset
  rewind-Models path = (
    record {
      points_eq = refl;
      verbs_eq = refl;
      open_eq = refl;
      contours = tt;
      start_eq = inl refl;
    },
    record {
      points_eq = refl;
      verbs_eq = refl;
      open_eq = refl;
      contours = tt;
      start_eq = inl refl;
    },
  )
