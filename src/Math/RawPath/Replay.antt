-- ===== src/Math/RawPath/Replay.antt =====
-- What the iterator of RawPath (include/rive/math/raw_path.hpp) reads: the loops of `morph` and
-- `addTo` over a path whose arrays hold a sequence of segments.
use rive_cpp_legacy.Prelude.{
  ℕ, suc, ◌+◌, ◌-◌, ◌≡◌, refl, sym, inl, inr, Option-cases, ◌∙◌, ◌⊎◌, Bool, true, false, List, [],
  ◌∷◌, ◌++◌, some, length, get_elem?, length-append, get_elem?-append_right, arith, ltb,
}
use mathlib.Core.List.{append_assoc}
use rive_cpp_legacy.Math.RawPath.{
  PathVerb, Plane, RawPath, Vec2D, new_path, pts_advance_after_verb, pts_backset_for_verb,
}
use rive_cpp_legacy.Math.RawPath.Segments.{
  Segment, move, line, quad, cubic, close, verb_of, points_of, verbs_of, all_points, open_after,
  IsContours,
}
use rive_cpp_legacy.Math.RawPath.Draw.{
  Models, new_path-Models, perform, performs, performs-Models, origin,
}
use rive_cpp_legacy.Math.RawPath.Iterate.{
  pts_at, morph_step, morph_loop, morph, Command, move_command, line_command, cubic_command,
  close_command, lerp, command_at, add_to_loop, add_to,
}

module _ {V : Type 0} {W : Type 0} (f : V → W) where
  abbrev pub map_segment : Segment V → Segment W
  map_segment (move a) = move (f a)
  map_segment (line a) = line (f a)
  map_segment (quad a b) = quad (f a) (f b)
  map_segment (cubic a b c) = cubic (f a) (f b) (f c)
  map_segment close = close

  abbrev pub map_segments : List (Segment V) → List (Segment W)
  map_segments [] = []
  map_segments (s ∷ segs) = map_segment s ∷ map_segments segs

  map_segments-IsContours :
      (is_open : Bool) (segs : List (Segment V))
      → IsContours is_open segs
      → IsContours is_open (map_segments segs)
  map_segments-IsContours is_open [] c = c
  map_segments-IsContours is_open (move a ∷ segs) c = map_segments-IsContours true segs c
  map_segments-IsContours is_open (line a ∷ segs) (o, c) = (o, map_segments-IsContours true segs c)
  map_segments-IsContours is_open (quad a b ∷ segs) (o, c) =
      (o, map_segments-IsContours true segs c)
  map_segments-IsContours is_open (cubic a b d ∷ segs) (o, c) =
      (o, map_segments-IsContours true segs c)
  map_segments-IsContours is_open (close ∷ segs) (o, c) = (o, map_segments-IsContours false segs c)

pub length-points_of :
    {V : Type 0} (s : Segment V) → length (points_of s) ≡ pts_advance_after_verb (verb_of s)
unfolding pts_advance_after_verb
length-points_of (move a) = refl
length-points_of (line a) = refl
length-points_of (quad a b) = refl
length-points_of (cubic a b c) = refl
length-points_of close = refl

line_backset : pts_backset_for_verb PathVerb.line ≡ 1
unfolding pts_backset_for_verb
line_backset = refl

quad_backset : pts_backset_for_verb PathVerb.quad ≡ 1
unfolding pts_backset_for_verb
quad_backset = refl

cubic_backset : pts_backset_for_verb PathVerb.cubic ≡ 1
unfolding pts_backset_for_verb
cubic_backset = refl

pub next_point :
    {V : Type 0} (before : List V) (s : Segment V)
    → length before + pts_advance_after_verb (verb_of s) ≡ length (before ++ points_of s)
next_point before s = omega (arith, length-append before (points_of s), length-points_of s)

module _ (plane : Plane) where
  open plane use {two_thirds}

  module _ (before rest : List (Vec2D plane)) where
    pts_at-move : pts_at plane (before ++ rest) (length before) PathVerb.move 0 ≡ get_elem? rest 0
    unfolding pts_at
    pts_at-move =
        let e : length before + 0 - 0 ≡ length before + 0 = omega arith in
        let low : ltb (length before + 0) 0 ≡ false = ground arith in
        rw (low, e) (get_elem?-append_right before rest 0)

    pts_at-ahead :
        (v : PathVerb) (k : ℕ)
        → pts_backset_for_verb v ≡ 1
        → pts_at plane (before ++ rest) (length before) v (suc k) ≡ get_elem? rest k
    unfolding pts_at
    pts_at-ahead v k back =
        let e : length before + suc k - 1 ≡ length before + k = omega arith in
        let low : ltb (length before + suc k) 1 ≡ false = ground arith in
        rw (back, low, e) (get_elem?-append_right before rest k)

  module _ (f : Vec2D plane → Vec2D plane) where
    morph_step-perform :
        (s : Segment (Vec2D plane)) (before after : List (Vec2D plane)) (dst : RawPath plane)
        → morph_step plane f (before ++ (points_of s ++ after)) (verb_of s) (length before) dst
          ≡ perform plane (map_segment f s) dst
    unfolding morph_step perform
    morph_step-perform (move a) before after dst = rw (pts_at-move before (a ∷ after)) refl
    morph_step-perform (line a) before after dst =
        rw (pts_at-ahead before (a ∷ after) PathVerb.line 0 line_backset) refl
    morph_step-perform (quad a b) before after dst =
        rw
          (
            pts_at-ahead before (a ∷ b ∷ after) PathVerb.quad 0 quad_backset,
            pts_at-ahead before (a ∷ b ∷ after) PathVerb.quad 1 quad_backset,
          )
          refl
    morph_step-perform (cubic a b c) before after dst =
        rw
          (
            pts_at-ahead before (a ∷ b ∷ c ∷ after) PathVerb.cubic 0 cubic_backset,
            pts_at-ahead before (a ∷ b ∷ c ∷ after) PathVerb.cubic 1 cubic_backset,
            pts_at-ahead before (a ∷ b ∷ c ∷ after) PathVerb.cubic 2 cubic_backset,
          )
          refl
    morph_step-perform close before after dst = refl

    morph_loop-performs :
        (segs : List (Segment (Vec2D plane))) (before points : List (Vec2D plane))
        (dst : RawPath plane)
        → points ≡ before ++ all_points segs
        → morph_loop plane f points (verbs_of segs) (length before) dst
          ≡ performs plane (map_segments f segs) dst
    unfolding morph_loop performs
    morph_loop-performs [] before points dst same = refl
    morph_loop-performs (s ∷ segs) before points dst same =
        let step : morph_step plane f points (verb_of s) (length before) dst
            ≡ perform plane (map_segment f s) dst =
          rw same (morph_step-perform s before (all_points segs) dst) in
        elim (Option-cases (perform plane (map_segment f s) dst)) [
          | inl nothing ↦ rw (step, nothing) refl
          | inr (dst', e) ↦
              rw (step, e, next_point before s)
                (morph_loop-performs segs (before ++ points_of s) points dst'
                  (same ∙ sym (append_assoc before (points_of s) (all_points segs))))
        ]

    -- `morph` of a path that was drawn by calls returns, without a read outside the points, a path
    -- of the same segments with each point taken to its image.
    pub morph-Models :
        (path : RawPath plane) (segs : List (Segment (Vec2D plane)))
        → Models plane path segs
        → (path' : RawPath plane) × (morph plane f path ≡ some path')
          × Models plane path' (map_segments f segs)
    unfolding morph
    morph-Models path segs m =
        let (path', e, m') =
          performs-Models plane (map_segments f segs) (new_path plane) [] (new_path-Models plane)
            (map_segments-IsContours f false segs m.contours) in
        (
          path',
          rw (m.points_eq, m.verbs_eq)
              (morph_loop-performs segs [] (all_points segs) (new_path plane) refl ∙ e),
          m',
        )

  -- The commands that draw the segments, a quad as the cubic through the same points.
  abbrev pub commands_of : Vec2D plane → List (Segment (Vec2D plane)) → List (Command plane)
  commands_of pen [] = []
  commands_of pen (move a ∷ segs) = move_command a ∷ commands_of a segs
  commands_of pen (line a ∷ segs) = line_command a ∷ commands_of a segs
  commands_of pen (quad a b ∷ segs) =
      cubic_command (lerp plane pen a two_thirds) (lerp plane b a two_thirds) b ∷ commands_of b segs
  commands_of pen (cubic a b c ∷ segs) = cubic_command a b c ∷ commands_of c segs
  commands_of pen (close ∷ segs) = close_command ∷ commands_of pen segs

  -- Behind an open contour stands its last point.
  abbrev EndsAt : Bool → Vec2D plane → List (Vec2D plane) → Type 0
  EndsAt is_open pen before =
      (is_open ≡ false) ⊎ ((most : List (Vec2D plane)) × (before ≡ most ++ pen ∷ []))

  pts_at-pen :
      (most rest : List (Vec2D plane)) (pen : Vec2D plane)
      → pts_at plane ((most ++ pen ∷ []) ++ rest) (length (most ++ pen ∷ [])) PathVerb.quad 0
        ≡ some pen
  unfolding pts_at pts_backset_for_verb
  pts_at-pen most rest pen =
      let n = length-append most (pen ∷ []) in
      let e : length (most ++ pen ∷ []) + 0 - 1 ≡ length most + 0 = omega (arith, n) in
      let low : ltb (length (most ++ pen ∷ []) + 0) 1 ≡ false = ground (arith, n) in
      rw (low, e, append_assoc most (pen ∷ []) rest) (get_elem?-append_right most (pen ∷ rest) 0)

  command_at-eq :
      (s : Segment (Vec2D plane)) (segs : List (Segment (Vec2D plane))) (is_open : Bool)
      (pen : Vec2D plane) (before : List (Vec2D plane))
      → IsContours is_open (s ∷ segs)
      → EndsAt is_open pen before
      → (command : Command plane) × (pen' : Vec2D plane) × (command_at plane
            (before ++ (points_of s ++ all_points segs))
            (verb_of s)
            (length before)
          ≡ some command)
        × (commands_of pen (s ∷ segs) ≡ command ∷ commands_of pen' segs)
        × IsContours (open_after is_open (s ∷ [])) segs
        × EndsAt (open_after is_open (s ∷ [])) pen' (before ++ points_of s)
  unfolding command_at
  command_at-eq (move a) segs is_open pen before c ends = (
    move_command a,
    a,
    rw (pts_at-move before (a ∷ all_points segs)) refl,
    refl,
    c,
    inr (before, refl),
  )
  command_at-eq (line a) segs is_open pen before (o, c) ends = (
    line_command a,
    a,
    rw (pts_at-ahead before (a ∷ all_points segs) PathVerb.line 0 line_backset) refl,
    refl,
    c,
    inr (before, refl),
  )
  command_at-eq (cubic a b d) segs is_open pen before (o, c) ends =
      let rest = a ∷ b ∷ d ∷ all_points segs in
      (
        cubic_command a b d,
        d,
        rw
            (
              pts_at-ahead before rest PathVerb.cubic 0 cubic_backset,
              pts_at-ahead before rest PathVerb.cubic 1 cubic_backset,
              pts_at-ahead before rest PathVerb.cubic 2 cubic_backset,
            )
            refl,
        refl,
        c,
        inr (before ++ a ∷ b ∷ [], sym (append_assoc before (a ∷ b ∷ []) (d ∷ []))),
      )
  command_at-eq close segs is_open pen before (o, c) ends =
      (close_command, pen, refl, refl, c, inl refl)
  command_at-eq (quad a b) segs is_open pen before (o, c) (inl shut) = absurd (clash (sym o ∙ shut))
    where
      clash : true ≡ false → ⊥
      clash e = cc
  command_at-eq (quad a b) segs is_open pen before (o, c) (inr (most, e)) =
      let rest = a ∷ b ∷ all_points segs in
      (
        cubic_command (lerp plane pen a two_thirds) (lerp plane b a two_thirds) b,
        b,
        rw
            (
              e,
              pts_at-pen most rest pen,
              pts_at-ahead (most ++ pen ∷ []) rest PathVerb.quad 0 quad_backset,
              pts_at-ahead (most ++ pen ∷ []) rest PathVerb.quad 1 quad_backset,
            )
            refl,
        refl,
        c,
        inr (before ++ a ∷ [], sym (append_assoc before (a ∷ []) (b ∷ []))),
      )

  add_to_loop-commands :
      (segs : List (Segment (Vec2D plane))) (is_open : Bool) (pen : Vec2D plane)
      (before points : List (Vec2D plane))
      → points ≡ before ++ all_points segs
      → IsContours is_open segs
      → EndsAt is_open pen before
      → add_to_loop plane points (verbs_of segs) (length before) ≡ some (commands_of pen segs)
  unfolding add_to_loop
  add_to_loop-commands [] is_open pen before points same c ends = refl
  add_to_loop-commands (s ∷ segs) is_open pen before points same c ends =
      let (command, pen', e, commands, c', ends') =
        command_at-eq s segs is_open pen before c ends in
      let step : command_at plane points (verb_of s) (length before) ≡ some command = rw same e in
      let rest =
        add_to_loop-commands segs (open_after is_open (s ∷ [])) pen' (before ++ points_of s) points
          (same ∙ sym (append_assoc before (points_of s) (all_points segs))) c' ends' in
      rw (step, next_point before s, rest, commands) refl

  -- `addTo` of a path that was drawn by calls reads no point outside the array, and passes on its
  -- segments in order, each with its own points; for a quad it takes the cubic through the end of
  -- the segment before.
  pub add_to-commands :
      (path : RawPath plane) (segs : List (Segment (Vec2D plane)))
      → Models plane path segs
      → add_to plane path ≡ some (commands_of (origin plane) segs)
  unfolding add_to
  add_to-commands path segs m = rw m.verbs_eq (
      add_to_loop-commands segs false (origin plane) [] path.points m.points_eq m.contours
        (inl refl))
