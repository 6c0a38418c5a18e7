-- ===== src/Math/RawPath.antt =====
-- RawPath (include/rive/math/raw_path.hpp, src/math/raw_path.cpp): a path as an array of verbs and
-- an array of points. A `none` is a read outside the points or of m_lastMoveIdx before it was set.
pub mod Segments
pub mod Draw
pub mod Shapes
pub mod Iterate
pub mod Compact
pub mod Replay
pub mod Prune
pub mod PruneLoop
pub mod Pruned
pub mod PruneEmpty
pub mod Stale
use rive_cpp_legacy.Prelude.{
  ℕ, zero, suc, ◌+◌, ◌-◌, ◌≡◌, Bool, true, false, not, ◌&&◌, List, [], ◌∷◌, ◌++◌, map, Option, none,
  some, length, get_elem?, set, take, if◌then◌else◌, ◌==◌,
}
use rive_cpp_legacy.Prelude.Fallible.{◌>>=◌}

pub data PathVerb : Type 0 where
  move : PathVerb
  line : PathVerb
  quad : PathVerb
  cubic : PathVerb
  close : PathVerb

pub data PathDirection : Type 0 where
  clockwise : PathDirection
  counterclockwise : PathDirection

-- The floats, four of them by their values in the source, and what the paths compute from them.
pub record Plane : Type 1 where
  pub Float : Type 0
  pub zero_f : Float
  pub one : Float
  pub half : Float
  pub circle : Float
  pub two_thirds : Float
  pub neg : Float → Float
  pub add : Float → Float → Float
  pub sub : Float → Float → Float
  pub mul : Float → Float → Float
  pub ne : Float → Float → Bool

unfoldable pub pts_advance_after_verb : PathVerb → ℕ
pts_advance_after_verb PathVerb.move = 1
pts_advance_after_verb PathVerb.line = 1
pts_advance_after_verb PathVerb.quad = 2
pts_advance_after_verb PathVerb.cubic = 3
pts_advance_after_verb PathVerb.close = 0

-- The number of points that the verb's pointer stands before `m_pts`.
unfoldable pub pts_backset_for_verb : PathVerb → ℕ
pts_backset_for_verb PathVerb.move = 0
pts_backset_for_verb PathVerb.line = 1
pts_backset_for_verb PathVerb.quad = 1
pts_backset_for_verb PathVerb.cubic = 1
pts_backset_for_verb PathVerb.close = 1

-- The value of a verb in the enum.
unfoldable pub verb_index : PathVerb → ℕ
verb_index PathVerb.move = 0
verb_index PathVerb.line = 1
verb_index PathVerb.quad = 2
verb_index PathVerb.cubic = 4
verb_index PathVerb.close = 5

unfoldable pub path_verb_to_point_count : PathVerb → Option ℕ
unfolding verb_index
path_verb_to_point_count v = get_elem? (1 ∷ 1 ∷ 2 ∷ 2 ∷ 3 ∷ 0 ∷ []) (verb_index v)

-- The loop of countMoveTos.
count_moves : List PathVerb → ℕ → ℕ
count_moves [] move_to_count = move_to_count
count_moves (PathVerb.move ∷ verbs) move_to_count = count_moves verbs (move_to_count + 1)
count_moves (v ∷ verbs) move_to_count = count_moves verbs (move_to_count + 0)

module _ (plane : Plane) where
  open plane use {Float, zero_f, one, half, circle, neg, add, sub, mul}

  abbrev pub Vec2D : Type 0
  Vec2D = Float × Float

  pub record Aabb : Type 0 where
    pub min_x : Float
    pub min_y : Float
    pub max_x : Float
    pub max_y : Float

  pub record RawPath : Type 0 where
    pub points : List Vec2D
    pub verbs : List PathVerb
    pub last_move : Option ℕ
    pub is_open : Bool

  abbrev pub new_path : RawPath
  new_path = record { points = []; verbs = []; last_move = none; is_open = false }

  unfoldable pub count_move_tos : RawPath → ℕ
  unfolding count_moves
  count_move_tos path = count_moves path.verbs 0

  abbrev pub push : List Vec2D → PathVerb → RawPath → RawPath
  push pts verb path = record path { points = path.points ++ pts; verbs = path.verbs ++ verb ∷ [] }

  unfoldable pub move_to : Vec2D → RawPath → RawPath
  move_to a path =
      push (a ∷ []) PathVerb.move
        (record path { is_open = true; last_move = some (length path.points) })

  abbrev point_at : List Vec2D → Option ℕ → Option Vec2D
  point_at points none = none
  point_at points (some i) = get_elem? points i

  -- Where an implicit move goes to.
  abbrev pen : List Vec2D → Option ℕ → Option Vec2D
  pen [] last_move = some (zero_f, zero_f)
  pen (p ∷ points) last_move = point_at (p ∷ points) last_move

  unfoldable pub inject_implicit_move_if_needed : RawPath → Option RawPath
  unfolding move_to
  inject_implicit_move_if_needed path =
      if path.is_open
      then some path
      else pen path.points path.last_move >>= λ a. some (move_to a path)

  unfoldable pub line_to : Vec2D → RawPath → Option RawPath
  unfolding inject_implicit_move_if_needed
  line_to a path = do
    opened ← inject_implicit_move_if_needed path
    some (push (a ∷ []) PathVerb.line opened)

  unfoldable pub quad_to : Vec2D → Vec2D → RawPath → Option RawPath
  unfolding inject_implicit_move_if_needed
  quad_to a b path = do
    opened ← inject_implicit_move_if_needed path
    some (push (a ∷ b ∷ []) PathVerb.quad opened)

  unfoldable pub cubic_to : Vec2D → Vec2D → Vec2D → RawPath → Option RawPath
  unfolding inject_implicit_move_if_needed
  cubic_to a b c path = do
    opened ← inject_implicit_move_if_needed path
    some (push (a ∷ b ∷ c ∷ []) PathVerb.cubic opened)

  unfoldable pub close_path : RawPath → RawPath
  close_path path =
      if path.is_open
      then record path { verbs = path.verbs ++ PathVerb.close ∷ []; is_open = false }
      else path

  -- `mapPoints` takes each point to its image.
  unfoldable pub transform : (Vec2D → Vec2D) → RawPath → RawPath
  transform m path = record new_path { verbs = path.verbs; points = map m path.points }

  unfoldable pub transform_in_place : (Vec2D → Vec2D) → RawPath → RawPath
  transform_in_place m path = record path { points = map m path.points }

  unfoldable pub swap : RawPath → RawPath → RawPath × RawPath
  swap this other = (
    record this { points = other.points; verbs = other.verbs },
    record other { points = this.points; verbs = this.verbs },
  )

  unfoldable pub reset : RawPath → RawPath
  reset path = record path { points = []; verbs = []; is_open = false }

  unfoldable pub rewind : RawPath → RawPath
  rewind path = record path { points = []; verbs = []; is_open = false }

  -- The path, and the iterator at the new geometry, by its two indices.
  unfoldable pub add_path : RawPath → Option (Vec2D → Vec2D) → RawPath → RawPath × (ℕ × ℕ)
  add_path src mat path =
      let added : List Vec2D = elim mat [ none ↦ src.points | some m ↦ map m src.points ] in
      (
        record path { points = path.points ++ added; verbs = path.verbs ++ src.verbs },
        (length path.verbs, length path.points),
      )

  unfoldable pub add_lines : List Vec2D → RawPath → Option RawPath
  unfolding line_to
  add_lines [] path = some path
  add_lines (a ∷ points) path = line_to a path >>= add_lines points

  unfoldable pub add_rect : Aabb → PathDirection → RawPath → Option RawPath
  unfolding line_to move_to close_path
  add_rect r PathDirection.clockwise path = do
    p1 ← line_to (r.max_x, r.min_y) (move_to (r.min_x, r.min_y) path)
    p2 ← line_to (r.max_x, r.max_y) p1
    p3 ← line_to (r.min_x, r.max_y) p2
    some (close_path p3)
  add_rect r PathDirection.counterclockwise path = do
    p1 ← line_to (r.min_x, r.max_y) (move_to (r.min_x, r.min_y) path)
    p2 ← line_to (r.max_x, r.max_y) p1
    p3 ← line_to (r.max_x, r.min_y) p2
    some (close_path p3)

  unfoldable pub add_poly : List Vec2D → Bool → RawPath → Option RawPath
  unfolding add_lines move_to close_path
  add_poly [] is_closed path = some path
  add_poly (a ∷ span) is_closed path = do
    drawn ← add_lines span (move_to a path)
    some (if is_closed then close_path drawn else drawn)

  -- The unit circle, from {1, 0} around to itself.
  abbrev unit : List Vec2D
  unit =
      (one, zero_f)
      ∷ (one, circle)
      ∷ (circle, one)
      ∷ (zero_f, one)
      ∷ (neg circle, one)
      ∷ (neg one, circle)
      ∷ (neg one, zero_f)
      ∷ (neg one, neg circle)
      ∷ (neg circle, neg one)
      ∷ (zero_f, neg one)
      ∷ (circle, neg one)
      ∷ (one, neg circle)
      ∷ (one, zero_f)
      ∷ []

  -- `map`: a point of the unit circle on the oval in the rectangle.
  abbrev pub on_oval : Aabb → Vec2D → Vec2D
  on_oval r (x, y) = (
    add (mul x (mul (sub r.max_x r.min_x) half)) (mul (add r.min_x r.max_x) half),
    add (mul y (mul (sub r.max_y r.min_y) half)) (mul (add r.min_y r.max_y) half),
  )

  -- `map(unit[i])`.
  abbrev oval_point : Aabb → ℕ → Option Vec2D
  oval_point r i = get_elem? unit i >>= λ p. some (on_oval r p)

  abbrev oval_arc : Aabb → ℕ → ℕ → ℕ → RawPath → Option RawPath
  oval_arc r i j k path = do
    a ← oval_point r i
    b ← oval_point r j
    c ← oval_point r k
    cubic_to a b c path

  unfoldable pub add_oval : Aabb → PathDirection → RawPath → Option RawPath
  unfolding cubic_to move_to close_path
  add_oval r PathDirection.clockwise path = do
    a ← oval_point r 0
    p1 ← oval_arc r 1 2 3 (move_to a path)
    p2 ← oval_arc r 4 5 6 p1
    p3 ← oval_arc r 7 8 9 p2
    p4 ← oval_arc r 10 11 12 p3
    some (close_path p4)
  add_oval r PathDirection.counterclockwise path = do
    a ← oval_point r 12
    p1 ← oval_arc r 11 10 9 (move_to a path)
    p2 ← oval_arc r 8 7 6 p1
    p3 ← oval_arc r 5 4 3 p2
    p4 ← oval_arc r 2 1 0 p3
    some (close_path p4)
