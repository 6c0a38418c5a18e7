-- ===== src/Math/RawPath/PruneLoop.antt =====
-- The loop of pruneEmptySegments (src/math/raw_path.cpp): it moves the kept segments down over the
-- dropped ones without losing a point that it has yet to read.
use rive_cpp_legacy.Prelude.{
  suc, ◌+◌, ◌<◌, ◌≡◌, refl, sym, ap, ◌∙◌, ◌⊎◌, inl, inr, true, false, List, [], ◌∷◌, ◌++◌, Option,
  none, some, length, get_elem?, set, length-append, get_elem?-append_right, set-append_length,
  get_elem?-append_length, last_of, last_of-append, arith, ◌==◌,
}
use mathlib.Core.List.{append_assoc, append-nil}
use rive_cpp_legacy.Math.RawPath.{PathVerb, Plane, Vec2D, pts_advance_after_verb}
use rive_cpp_legacy.Math.RawPath.Segments.{Segment, verb_of, points_of, verbs_of, all_points}
use rive_cpp_legacy.Math.RawPath.Replay.{length-points_of}
use rive_cpp_legacy.Math.RawPath.Compact.{copy_points, Cursor, pass_kept, keep_segment}

module _ (plane : Plane) where
  -- Between the kept and the coming segments: nothing yet, or the leavings of dropped ones.
  abbrev pub Gap : List PathVerb → List (Vec2D plane) → Type 0
  Gap jv jp = ((jv ≡ []) × (jp ≡ [])) ⊎ ((0 < length jv) × (0 < length jp))

  last-snoc :
      (o : Option (Vec2D plane)) (xs : List (Vec2D plane)) (x : Vec2D plane)
      → last_of o (xs ++ x ∷ []) ≡ some x
  last-snoc o xs x = last_of-append o xs (x ∷ [])

  -- Points are moved down over a gap, which keeps its length, and of which the last point is then
  -- the last that was moved.
  copy_points-eq :
      (xs kp jp r : List (Vec2D plane))
      → 0 < length jp
      → (jp' : List (Vec2D plane)) × (copy_points plane
            (length xs)
            (length kp + length jp)
            (length kp)
            (kp ++ (jp ++ (xs ++ r)))
          ≡ some ((kp ++ xs) ++ (jp' ++ r)))
        × (length jp' ≡ length jp)
        × (last_of none ((kp ++ xs) ++ jp') ≡ last_of none ((kp ++ jp) ++ xs))
  unfolding copy_points
  copy_points-eq xs kp [] r h = absurd (omega arith)
  copy_points-eq [] kp (y ∷ j) r h =
      (y ∷ j, rw (append-nil kp) refl, refl, rw (append-nil kp, append-nil (kp ++ y ∷ j)) refl)
  copy_points-eq (x ∷ xs) kp (y ∷ j) r h =
      let nj = length-append j (x ∷ []) in
      let nk = length-append kp (x ∷ []) in
      let (jp', e, n, last) =
        copy_points-eq xs (kp ++ x ∷ []) (j ++ x ∷ []) r (omega (arith, nj)) in
      let read : get_elem? (kp ++ (y ∷ (j ++ (x ∷ (xs ++ r))))) (length kp + suc (length j))
          ≡ some x =
        get_elem?-append_right kp (y ∷ (j ++ (x ∷ (xs ++ r)))) (suc (length j))
        ∙ get_elem?-append_length j (xs ++ r) x in
      let moved : set (kp ++ (y ∷ (j ++ (x ∷ (xs ++ r))))) (length kp) x
          ≡ (kp ++ x ∷ []) ++ ((j ++ x ∷ []) ++ (xs ++ r)) =
        set-append_length kp (j ++ (x ∷ (xs ++ r))) y x
        ∙ rw
            (
              append_assoc kp (x ∷ []) ((j ++ x ∷ []) ++ (xs ++ r)),
              append_assoc j (x ∷ []) (xs ++ r),
            )
            refl in
      let src : length kp + suc (length j) + 1 ≡ length (kp ++ x ∷ []) + length (j ++ x ∷ []) =
        omega (arith, nj, nk) in
      let dst : length kp + 1 ≡ length (kp ++ x ∷ []) = omega (arith, nk) in
      let tail : last_of none (((kp ++ x ∷ []) ++ (j ++ x ∷ [])) ++ xs)
          ≡ last_of none ((kp ++ y ∷ j) ++ x ∷ xs) =
        last_of-append none ((kp ++ x ∷ []) ++ (j ++ x ∷ [])) xs
        ∙ ap (λ o. last_of o xs)
            (last_of-append none (kp ++ x ∷ []) (j ++ x ∷ [])
              ∙ last-snoc (last_of none (kp ++ x ∷ [])) j x)
        ∙ sym (last_of-append none (kp ++ y ∷ j) (x ∷ xs)) in
      (
        jp',
        rw (read, moved, src, dst) (e ∙ rw (append_assoc kp (x ∷ []) xs) refl),
        n ∙ omega (arith, nj),
        rw (← append_assoc kp (x ∷ []) xs) (last ∙ tail),
      )

  -- The arrays hold the kept segments, the gap and the coming segments, and the four indices
  -- stand at the gap's ends.
  pub record Compacts (c : Cursor plane) (kv jv : List PathVerb) (kp jp : List (Vec2D plane))
      (segs : List (Segment (Vec2D plane))) : Type 0 where
    pub cells_eq : c.cells ≡ kv ++ (jv ++ verbs_of segs)
    pub coords_eq : c.coords ≡ kp ++ (jp ++ all_points segs)
    pub dst_verb_eq : c.dst_verb ≡ length kv
    pub src_verb_eq : c.src_verb ≡ length kv + length jv
    pub dst_pts_eq : c.dst_pts ≡ length kp
    pub src_pts_eq : c.src_pts ≡ length kp + length jp
    pub gap : Gap jv jp

  set-gap :
      (kv jv rest : List PathVerb) (v : PathVerb)
      → 0 < length jv
      → (jv' : List PathVerb) × (length jv' ≡ length jv)
        × (set (kv ++ (jv ++ (v ∷ rest))) (length kv) v ≡ (kv ++ v ∷ []) ++ (jv' ++ rest))
  set-gap kv [] rest v h = absurd (omega arith)
  set-gap kv (w ∷ jv) rest v h = (
    jv ++ v ∷ [],
    omega (arith, length-append jv (v ∷ [])),
    set-append_length kv (jv ++ (v ∷ rest)) w v
        ∙ rw (append_assoc kv (v ∷ []) ((jv ++ v ∷ []) ++ rest), append_assoc jv (v ∷ []) rest)
            refl,
  )

  module _ (c : Cursor plane) (kv jv : List PathVerb) (kp jp : List (Vec2D plane))
      (s : Segment (Vec2D plane)) (segs : List (Segment (Vec2D plane)))
      (m : Compacts c kv jv kp jp (s ∷ segs)) where
    pub keep-closed :
        jv ≡ []
        → jp ≡ []
        → (c' : Cursor plane) × (keep_segment plane (verb_of s) c ≡ some c')
          × Compacts c' (kv ++ verb_of s ∷ []) [] (kp ++ points_of s) [] segs
    unfolding keep_segment
    keep-closed nv np =
        let same : (c.src_verb == c.dst_verb) ≡ true =
          ground (arith, m.src_verb_eq, m.dst_verb_eq, ap length nv) in
        (
          pass_kept plane (verb_of s) c,
          rw same refl,
          record {
            cells_eq = m.cells_eq ∙ rw nv (sym (append_assoc kv (verb_of s ∷ []) (verbs_of segs)));
            coords_eq = m.coords_eq ∙ rw np (sym (append_assoc kp (points_of s) (all_points segs)));
            dst_verb_eq = omega (arith, m.dst_verb_eq, length-append kv (verb_of s ∷ []));
            src_verb_eq =
                omega (arith, m.src_verb_eq, length-append kv (verb_of s ∷ []), ap length nv);
            dst_pts_eq =
                omega (arith, m.dst_pts_eq, length-append kp (points_of s), length-points_of s);
            src_pts_eq = omega (
              arith,
              m.src_pts_eq,
              length-append kp (points_of s),
              length-points_of s,
              ap length np,
            );
            gap = inl (refl, refl);
          },
        )

    pub keep-wide :
        0 < length jv
        → 0 < length jp
        → (c' : Cursor plane) × (jv' : List PathVerb) × (jp' : List (Vec2D plane)) × (keep_segment
              plane
              (verb_of s)
              c
            ≡ some c')
          × Compacts c' (kv ++ verb_of s ∷ []) jv' (kp ++ points_of s) jp' segs
          × (last_of none ((kp ++ points_of s) ++ jp') ≡ last_of none ((kp ++ jp) ++ points_of s))
    unfolding keep_segment
    keep-wide pv pp =
        let v = verb_of s in
        let away : (c.src_verb == c.dst_verb) ≡ false =
          ground (arith, m.src_verb_eq, m.dst_verb_eq) in
        let (jv', nv, cells) = set-gap kv jv (verbs_of segs) v pv in
        let (jp', e, np, last) = copy_points-eq (points_of s) kp jp (all_points segs) pp in
        let coords' = (kp ++ points_of s) ++ (jp' ++ all_points segs) in
        let copied : copy_points plane (pts_advance_after_verb v) c.src_pts c.dst_pts c.coords
            ≡ some coords' =
          rw (m.src_pts_eq, m.dst_pts_eq, m.coords_eq, ← length-points_of s) e in
        let written : set c.cells c.dst_verb v ≡ (kv ++ v ∷ []) ++ (jv' ++ verbs_of segs) =
          rw (m.cells_eq, m.dst_verb_eq) cells in
        (
          pass_kept plane v (record c { cells = set c.cells c.dst_verb v; coords = coords' }),
          jv',
          jp',
          rw (away, copied) refl,
          record {
            cells_eq = written;
            coords_eq = refl;
            dst_verb_eq = omega (arith, m.dst_verb_eq, length-append kv (v ∷ []));
            src_verb_eq = omega (arith, m.src_verb_eq, length-append kv (v ∷ []), nv);
            dst_pts_eq =
                omega (arith, m.dst_pts_eq, length-append kp (points_of s), length-points_of s);
            src_pts_eq =
                omega (arith, m.src_pts_eq, length-append kp (points_of s), length-points_of s, np);
            gap = inr (omega (arith, nv), omega (arith, np));
          },
          last,
        )
