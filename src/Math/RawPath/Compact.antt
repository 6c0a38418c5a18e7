-- ===== src/Math/RawPath/Compact.antt =====
-- RawPath::pruneEmptySegments (src/math/raw_path.cpp): the loop that moves the segments it keeps
-- down over those it drops, within the two arrays.
use rive_cpp_legacy.Prelude.{
  ℕ, zero, suc, ◌+◌, ◌-◌, Bool, true, ◌||◌, List, Option, none, some, length, get_elem?, set, take,
  if◌then◌else◌, ◌==◌,
}
use rive_cpp_legacy.Prelude.Fallible.{◌>>=◌}
use rive_cpp_legacy.Math.RawPath.{PathVerb, Plane, RawPath, Vec2D, pts_advance_after_verb}

module _ (plane : Plane) where
  open plane use {ne}

  -- `!=` of two points.
  abbrev pub differ : Vec2D plane → Vec2D plane → Bool
  differ (ax, ay) (bx, by') = ne ax bx || ne ay by'

  -- `srcPts[i] != srcPts[j]`, of two points counted from the array's begin.
  abbrev pub points_differ : List (Vec2D plane) → ℕ → ℕ → Option Bool
  points_differ points i j = do a ← get_elem? points i; b ← get_elem? points j; some (differ a b)

  -- `srcPts[0] != srcPts[-1]`.
  abbrev pub differs_from_last : List (Vec2D plane) → ℕ → Option Bool
  differs_from_last points zero = none
  differs_from_last points (suc i) = points_differ points (suc i) i

  -- The switch of pruneEmptySegments: whether it keeps the segment.
  unfoldable pub is_kept : List (Vec2D plane) → PathVerb → ℕ → Option Bool
  is_kept points PathVerb.move i = some true
  is_kept points PathVerb.close i = some true
  is_kept points PathVerb.cubic i = do
    d2 ← points_differ points (i + 2) (i + 1)
    d1 ← (if d2 then some true else points_differ points (i + 1) i)
    if d1 then some true else differs_from_last points i
  is_kept points PathVerb.quad i = do
    d1 ← points_differ points (i + 1) i
    if d1 then some true else differs_from_last points i
  is_kept points PathVerb.line i = differs_from_last points i

  -- `std::copy` of `count` points forward within the array.
  unfoldable pub copy_points : ℕ → ℕ → ℕ → List (Vec2D plane) → Option (List (Vec2D plane))
  copy_points zero src dst points = some points
  copy_points (suc count) src dst points = do
    a ← get_elem? points src
    copy_points count (src + 1) (dst + 1) (set points dst a)

  pub record Cursor : Type 0 where
    pub cells : List PathVerb
    pub coords : List (Vec2D plane)
    pub src_verb : ℕ
    pub src_pts : ℕ
    pub dst_verb : ℕ
    pub dst_pts : ℕ

  -- What the loop copies of a segment.
  abbrev pub move_segment : PathVerb → Cursor → Option Cursor
  move_segment v c = do
    coords' ← copy_points (pts_advance_after_verb v) c.src_pts c.dst_pts c.coords
    some (record c { cells = set c.cells c.dst_verb v; coords = coords' })

  abbrev pub pass_kept : PathVerb → Cursor → Cursor
  pass_kept v c = record c {
    src_verb = c.src_verb + 1;
    src_pts = c.src_pts + pts_advance_after_verb v;
    dst_verb = c.dst_verb + 1;
    dst_pts = c.dst_pts + pts_advance_after_verb v;
  }

  abbrev pub pass_pruned : PathVerb → Cursor → Cursor
  pass_pruned v c = record c {
    src_verb = c.src_verb + 1;
    src_pts = c.src_pts + pts_advance_after_verb v;
  }

  -- What the loop does with a segment that it keeps.
  unfoldable pub keep_segment : PathVerb → Cursor → Option Cursor
  unfolding pts_advance_after_verb copy_points
  keep_segment v c = (if c.src_verb == c.dst_verb then some c else move_segment v c) >>= λ c'.
      some (pass_kept v c')

  -- One round of the loop.
  unfoldable pub prune_step : PathVerb → Cursor → Option Cursor
  unfolding is_kept keep_segment
  prune_step v c = is_kept c.coords v c.src_pts >>= λ kept.
      if kept then keep_segment v c else some (pass_pruned v c)

  -- The loop, with the number of verbs that it has left.
  unfoldable pub prune_loop : ℕ → Cursor → Option Cursor
  unfolding prune_step
  prune_loop zero c = some c
  prune_loop (suc left) c = do
    v ← get_elem? c.cells c.src_verb
    c' ← prune_step v c
    prune_loop left c'

  -- From the iterator with the given verb and point on.
  unfoldable pub prune_empty_segments : ℕ → ℕ → RawPath plane → Option (RawPath plane)
  unfolding prune_loop
  prune_empty_segments verb_start point_start path = do
    c ← prune_loop (length path.verbs - verb_start) (record {
      cells = path.verbs;
      coords = path.points;
      src_verb = verb_start;
      src_pts = point_start;
      dst_verb = verb_start;
      dst_pts = point_start;
    })
    some (
        if c.dst_verb == c.src_verb
        then record path { verbs = c.cells; points = c.coords }
        else record path { verbs = take c.dst_verb c.cells; points = take c.dst_pts c.coords })
