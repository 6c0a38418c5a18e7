-- ===== src/Math/RawPath/Draw.antt =====
-- The drawing calls of RawPath (src/math/raw_path.cpp) and the sequence of segments that they build.
use rive_cpp_legacy.Prelude.{
  ℕ, zero, suc, ◌≡◌, refl, sym, ap, subst, ◌∙◌, ◌⊎◌, inl, inr, Bool, true, false, List, [], ◌∷◌,
  ◌++◌, Option, none, some, get_elem?, get_elem?-append_length, arith, Bool-cases, if◌then◌else◌,
}
use mathlib.Core.List.{append_assoc, append-nil}
use rive_cpp_legacy.Prelude.Fallible.{◌>>=◌}
use rive_cpp_legacy.Math.RawPath.{
  Plane, RawPath, Vec2D, new_path, push, move_to, point_at, pen, inject_implicit_move_if_needed,
  line_to, quad_to, cubic_to, close_path,
}
use rive_cpp_legacy.Math.RawPath.Segments.{
  Segment, move, line, quad, cubic, close, verb_of, points_of, verbs_of, all_points, open_after,
  start_after, IsContours, drawn, verbs_of-append, all_points-append, open_after-append,
  start_after-append, append-IsContours,
}

module _ {V : Type 0} where
  get_elem?-append_left :
      (xs ys : List V) (i : ℕ) {v : V} → get_elem? xs i ≡ some v → get_elem? (xs ++ ys) i ≡ some v
  get_elem?-append_left [] ys i h = cc
  get_elem?-append_left (x ∷ xs) ys zero h = h
  get_elem?-append_left (x ∷ xs) ys (suc i) h = get_elem?-append_left xs ys i h

module _ (plane : Plane) where
  open plane use {zero_f}

  abbrev pub origin : Vec2D plane
  origin = (zero_f, zero_f)

  -- The call that draws a segment.
  unfoldable pub perform : Segment (Vec2D plane) → RawPath plane → Option (RawPath plane)
  unfolding move_to line_to quad_to cubic_to close_path
  perform (move a) path = some (move_to plane a path)
  perform (line a) path = line_to plane a path
  perform (quad a b) path = quad_to plane a b path
  perform (cubic a b c) path = cubic_to plane a b c path
  perform close path = some (close_path plane path)

  -- The path holds the segments, which form contours, and knows where the last one began.
  pub record Models (path : RawPath plane) (segs : List (Segment (Vec2D plane))) : Type 0 where
    pub points_eq : path.points ≡ all_points segs
    pub verbs_eq : path.verbs ≡ verbs_of segs
    pub open_eq : path.is_open ≡ open_after false segs
    pub contours : IsContours false segs
    pub start_eq :
        (segs ≡ []) ⊎ (point_at plane path.points path.last_move ≡ some (start_after origin segs))

  pub new_path-Models : Models (new_path plane) []
  new_path-Models = record {
    points_eq = refl;
    verbs_eq = refl;
    open_eq = refl;
    contours = tt;
    start_eq = inl refl;
  }

  pub move_to-Models :
      (a : Vec2D plane) (path : RawPath plane) (segs : List (Segment (Vec2D plane)))
      → Models path segs
      → Models (move_to plane a path) (segs ++ move a ∷ [])
  unfolding move_to
  move_to-Models a path segs m = record {
    points_eq = rw (all_points-append segs (move a ∷ []), m.points_eq) refl;
    verbs_eq = rw (verbs_of-append segs (move a ∷ []), m.verbs_eq) refl;
    open_eq = sym (open_after-append false segs (move a ∷ []));
    contours = append-IsContours false segs (move a ∷ []) m.contours tt;
    start_eq = inr (
        get_elem?-append_length path.points [] a
        ∙ ap some (sym (start_after-append origin segs (move a ∷ []))));
  }

  some_point :
      (points more : List (Vec2D plane)) (last : Option ℕ) (v : Vec2D plane)
      → point_at plane points last ≡ some v
      → point_at plane (points ++ more) last ≡ some v
  some_point points more none v h = cc
  some_point points more (some i) v h = get_elem?-append_left points more i h

  -- What a call in an open contour does.
  abbrev IsEdge : Segment (Vec2D plane) → Type 0
  IsEdge s =
      ((start : Vec2D plane) → start_after start (s ∷ []) ≡ start)
      × (open_after true (s ∷ []) ≡ true)
      × IsContours true (s ∷ [])

  push-Models :
      (s : Segment (Vec2D plane)) (path : RawPath plane) (segs : List (Segment (Vec2D plane)))
      → IsEdge s
      → Models path segs
      → open_after false segs ≡ true
      → Models (push plane (points_of s) (verb_of s) path) (segs ++ s ∷ [])
  push-Models s path segs (same, stays, edge) m o = record {
    points_eq = rw (all_points-append segs (s ∷ []), m.points_eq, append-nil (points_of s)) refl;
    verbs_eq = rw (verbs_of-append segs (s ∷ []), m.verbs_eq) refl;
    open_eq = m.open_eq ∙ o ∙ sym (open_after-append false segs (s ∷ []) ∙ rw o stays);
    contours = append-IsContours false segs (s ∷ []) m.contours (rw o edge);
    start_eq = elim (m.start_eq) [
      | inl nothing ↦ absurd (impossible (rw nothing at o))
      | inr here ↦ inr (
          some_point path.points (points_of s) path.last_move _ here
          ∙ ap some (sym (start_after-append origin segs (s ∷ []) ∙ same _)))
    ];
  }
    where
      impossible : false ≡ true → ⊥
      impossible e = cc

  close_path-shut : (path : RawPath plane) → path.is_open ≡ false → close_path plane path ≡ path
  unfolding close_path
  close_path-shut path e = ground (arith, e)

  close_path-Models :
      (path : RawPath plane) (segs : List (Segment (Vec2D plane)))
      → Models path segs
      → Models
          (close_path plane path)
          (segs ++ drawn (open_after false segs) (start_after origin segs) close)
  unfolding close_path
  close_path-Models path segs m = elim (Bool-cases (open_after false segs)) [
    | inl o ↦
        let e : path.is_open ≡ true = m.open_eq ∙ o in
        rw (o, e)
          (record {
            points_eq = rw (all_points-append segs (close ∷ []), append-nil) m.points_eq;
            verbs_eq = rw (verbs_of-append segs (close ∷ []), m.verbs_eq) refl;
            open_eq = sym (open_after-append false segs (close ∷ []));
            contours = append-IsContours false segs (close ∷ []) m.contours (rw o (refl, tt));
            start_eq = elim (m.start_eq) [
              | inl nothing ↦ absurd (impossible (rw nothing at o))
              | inr here ↦ inr (here ∙ ap some (sym (start_after-append origin segs (close ∷ []))))
            ];
          })
    | inr shut ↦
        let same = close_path-shut path (m.open_eq ∙ shut) in
        rw (shut, append-nil) (subst (λ q. Models q segs) (sym same) m)
  ]
    where
      impossible : false ≡ true → ⊥
      impossible e = cc

  pen-start :
      (points : List (Vec2D plane)) (last : Option ℕ) (segs : List (Segment (Vec2D plane)))
      → points ≡ all_points segs
      → (segs ≡ []) ⊎ (point_at plane points last ≡ some (start_after origin segs))
      → pen plane points last ≡ some (start_after origin segs)
  pen-start [] last segs same (inl nothing) = rw nothing refl
  pen-start (p ∷ points) last segs same (inl nothing) = absurd (impossible (rw nothing at same))
    where
      impossible : p ∷ points ≡ [] → ⊥
      impossible e = cc
  pen-start [] none segs same (inr here) = cc
  pen-start [] (some i) segs same (inr here) = cc
  pen-start (p ∷ points) last segs same (inr here) = here

  -- A call in a closed contour comes behind a move to where the last contour began.
  inject-Models :
      (path : RawPath plane) (segs : List (Segment (Vec2D plane)))
      → Models path segs
      → (path' : RawPath plane) × (inject_implicit_move_if_needed plane path ≡ some path')
        × Models path'
            (segs ++ (if open_after false segs then [] else move (start_after origin segs) ∷ []))
  unfolding inject_implicit_move_if_needed
  inject-Models path segs m = elim (Bool-cases (open_after false segs)) [
    | inl o ↦ let e : path.is_open ≡ true = m.open_eq ∙ o in (path, rw e refl, rw (o, append-nil) m)
    | inr shut ↦
        let e : path.is_open ≡ false = m.open_eq ∙ shut in
        (
          move_to plane (start_after origin segs) path,
          rw (e, pen-start path.points path.last_move segs m.points_eq m.start_eq) refl,
          rw shut (move_to-Models (start_after origin segs) path segs m),
        )
  ]

  -- What a drawing call of an edge does, once the contour is open.
  edge-Models :
      (s : Segment (Vec2D plane)) (path : RawPath plane) (segs : List (Segment (Vec2D plane)))
      → IsEdge s
      → ((start : Vec2D plane) → drawn true start s ≡ s ∷ [])
      → ((start : Vec2D plane) → drawn false start s ≡ move start ∷ s ∷ [])
      → Models path segs
      → (path' : RawPath plane) × ((inject_implicit_move_if_needed plane path >>= λ opened.
            some (push plane (points_of s) (verb_of s) opened))
          ≡ some path')
        × Models path' (segs ++ drawn (open_after false segs) (start_after origin segs) s)
  edge-Models s path segs edge in_open in_closed m =
      let (opened, e, m') = inject-Models path segs m in
      elim (Bool-cases (open_after false segs)) [
        | inl o ↦
            let m1 : Models opened segs = rw (o, append-nil) at m' in
            (
              push plane (points_of s) (verb_of s) opened,
              rw e refl,
              rw (o, in_open _) (push-Models s opened segs edge m1 o),
            )
        | inr shut ↦
            let start = start_after origin segs in
            let m1 : Models opened (segs ++ move start ∷ []) = rw shut at m' in
            let m2 =
              push-Models s opened (segs ++ move start ∷ []) edge m1
                (open_after-append false segs (move start ∷ [])) in
            (
              push plane (points_of s) (verb_of s) opened,
              rw e refl,
              rw (shut, in_closed start)
                  (subst (Models (push plane (points_of s) (verb_of s) opened))
                    (append_assoc segs (move start ∷ []) (s ∷ [])) m2),
            )
      ]

  -- Every drawing call on a path that was drawn so far by such calls returns, without a read
  -- outside the points. It adds its segment, in a closed contour behind a move to where the last
  -- contour began ({0, 0} in an empty path); a `close` of a closed contour adds nothing. The verbs
  -- and points are those of the segments, each contour begins with a move, and the path knows
  -- whether the last one is open.
  pub perform-Models :
      (s : Segment (Vec2D plane)) (path : RawPath plane) (segs : List (Segment (Vec2D plane)))
      → Models path segs
      → (path' : RawPath plane) × (perform s path ≡ some path')
        × Models path' (segs ++ drawn (open_after false segs) (start_after origin segs) s)
  unfolding perform
  perform-Models (move a) path segs m = (move_to plane a path, refl, move_to-Models a path segs m)
  perform-Models (line a) path segs m =
      edge-Models (line a) path segs ((λ start. refl), refl, (refl, tt)) (λ start. refl)
        (λ start. refl) m
  perform-Models (quad a b) path segs m =
      edge-Models (quad a b) path segs ((λ start. refl), refl, (refl, tt)) (λ start. refl)
        (λ start. refl) m
  perform-Models (cubic a b c) path segs m =
      edge-Models (cubic a b c) path segs ((λ start. refl), refl, (refl, tt)) (λ start. refl)
        (λ start. refl) m
  perform-Models close path segs m = (close_path plane path, refl, close_path-Models path segs m)

  unfoldable pub performs : List (Segment (Vec2D plane)) → RawPath plane → Option (RawPath plane)
  unfolding perform
  performs [] path = some path
  performs (s ∷ segs) path = perform s path >>= performs segs

  drawn-eq :
      (is_open : Bool) (start : Vec2D plane) (s : Segment (Vec2D plane))
      (segs : List (Segment (Vec2D plane)))
      → IsContours is_open (s ∷ segs)
      → (drawn is_open start s ≡ s ∷ []) × IsContours (open_after is_open (s ∷ [])) segs
  drawn-eq is_open start (move a) segs c = (refl, c)
  drawn-eq true start (line a) segs (o, c) = (refl, c)
  drawn-eq true start (quad a b) segs (o, c) = (refl, c)
  drawn-eq true start (cubic a b c) segs (o, d) = (refl, d)
  drawn-eq true start close segs (o, c) = (refl, c)
  drawn-eq false start (line a) segs (o, c) = cc
  drawn-eq false start (quad a b) segs (o, c) = cc
  drawn-eq false start (cubic a b c) segs (o, d) = cc
  drawn-eq false start close segs (o, c) = cc

  -- Segments that go on from the path as contours are added as they are.
  pub performs-Models :
      (more : List (Segment (Vec2D plane))) (path : RawPath plane)
      (segs : List (Segment (Vec2D plane)))
      → Models path segs
      → IsContours (open_after false segs) more
      → (path' : RawPath plane) × (performs more path ≡ some path') × Models path' (segs ++ more)
  unfolding performs
  performs-Models [] path segs m c = (path, refl, rw append-nil m)
  performs-Models (s ∷ more) path segs m c =
      let (same, c') = drawn-eq (open_after false segs) (start_after origin segs) s more c in
      let (path1, e1, m1) = perform-Models s path segs m in
      let m2 : Models path1 (segs ++ s ∷ []) = rw same at m1 in
      let c2 : IsContours (open_after false (segs ++ s ∷ [])) more =
        rw (open_after-append false segs (s ∷ [])) c' in
      let (path2, e2, m3) = performs-Models more path1 (segs ++ s ∷ []) m2 c2 in
      (path2, rw e1 e2, subst (Models path2) (append_assoc segs (s ∷ []) more) m3)
