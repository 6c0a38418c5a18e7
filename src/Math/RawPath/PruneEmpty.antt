-- ===== src/Math/RawPath/PruneEmpty.antt =====
-- pruneEmptySegments (src/math/raw_path.cpp) on the two arrays of a path.
use rive_cpp_legacy.Prelude.{
  suc, ◌-◌, ◌≡◌, refl, sym, ap, ◌∙◌, inl, inr, Bool, true, false, List, [], ◌∷◌, ◌++◌, Option, none,
  some, length, take, length-append, take-append_length, last_of, arith, if◌then◌else◌, ◌==◌,
  Bool-cases,
}
use mathlib.Core.List.{append-nil}
use rive_cpp_legacy.Prelude.Fallible.{◌>>=◌}
use rive_cpp_legacy.Math.RawPath.{PathVerb, Plane, RawPath, Vec2D}
use rive_cpp_legacy.Math.RawPath.Segments.{
  Segment, move, line, quad, cubic, close, points_of, verbs_of, all_points, verbs_of-append,
  all_points-append, open_after, IsContours,
}
use rive_cpp_legacy.Math.RawPath.Prune.{keeps, pruned}
use rive_cpp_legacy.Math.RawPath.Compact.{differ, Cursor, prune_empty_segments}
use rive_cpp_legacy.Math.RawPath.PruneLoop.{Compacts}
use rive_cpp_legacy.Math.RawPath.Pruned.{Outcome, prune_loop-pruned}

pub length-verbs_of : {V : Type 0} (segs : List (Segment V)) → length (verbs_of segs) ≡ length segs
length-verbs_of [] = refl
length-verbs_of (s ∷ segs) = ap suc (length-verbs_of segs)

module _ (plane : Plane) where
  -- The path with other arrays.
  abbrev pub with_segments : RawPath plane → List (Segment (Vec2D plane)) → RawPath plane
  with_segments path segs = record path { verbs = verbs_of segs; points = all_points segs }

  -- What follows the loop.
  abbrev erase : RawPath plane → Cursor plane → RawPath plane
  erase path c =
      if c.dst_verb == c.src_verb
      then record path { verbs = c.cells; points = c.coords }
      else record path { verbs = take c.dst_verb c.cells; points = take c.dst_pts c.coords }

  erase-Compacts :
      (path : RawPath plane) (c : Cursor plane) (jv : List PathVerb) (jp : List (Vec2D plane))
      (kv : List PathVerb) (kp : List (Vec2D plane))
      → Compacts plane c kv jv kp jp []
      → erase path c ≡ record path { verbs = kv; points = kp }
  erase-Compacts path c jv jp kv kp m = elim (m.gap) [
    | inl (nv, np) ↦
        let same : (c.dst_verb == c.src_verb) ≡ true =
          ground (arith, m.src_verb_eq, m.dst_verb_eq, ap length nv) in
        let cells : c.cells ≡ kv = m.cells_eq ∙ rw (nv, append-nil) refl in
        let coords : c.coords ≡ kp = m.coords_eq ∙ rw (np, append-nil) refl in
        rw (same, cells, coords) refl
    | inr (pv, pp) ↦
        let away : (c.dst_verb == c.src_verb) ≡ false =
          ground (arith, m.src_verb_eq, m.dst_verb_eq) in
        let cells : take c.dst_verb c.cells ≡ kv =
          rw (m.dst_verb_eq, m.cells_eq) (take-append_length kv (jv ++ [])) in
        let coords : take c.dst_pts c.coords ≡ kp =
          rw (m.dst_pts_eq, m.coords_eq) (take-append_length kp (jp ++ [])) in
        rw (away, cells, coords) refl
  ]

  module _ (before segs : List (Segment (Vec2D plane))) where
    erased :
        (path : RawPath plane) (o : Option (List (Segment (Vec2D plane))))
        (r : Option (Cursor plane))
        → Outcome plane o r (verbs_of before) (all_points before)
        → (r >>= λ c. some (erase path c))
          ≡ (o >>= λ out. some (with_segments path (before ++ out)))
    erased path none r h = rw h refl
    erased path (some out) r (c, jv, jp, e, m) = rw e (
        ap some (
          erase-Compacts path c jv jp _ _ m
          ∙ rw (verbs_of-append before out, all_points-append before out) refl))

    -- From an iterator at some segments of a path on, pruneEmptySegments keeps exactly the
    -- segments that have a point away from the one before it, in order, and the segments before
    -- the iterator; it never reads a point that it has already overwritten. It reads outside the
    -- array (`none`) only where a segment without a point before it has to be compared with one.
    pub prune_empty_segments-pruned :
        (path : RawPath plane)
        → path.verbs ≡ verbs_of (before ++ segs)
        → path.points ≡ all_points (before ++ segs)
        → prune_empty_segments plane (length before) (length (all_points before)) path ≡ (
            pruned plane (last_of none (all_points before)) segs >>= λ out.
            some (with_segments path (before ++ out)))
    unfolding prune_empty_segments
    prune_empty_segments-pruned path vs ps =
        let left : length path.verbs - length before ≡ length segs =
          omega
            (arith, ap length vs, length-verbs_of (before ++ segs), length-append before segs) in
        let start : Cursor plane = record {
          cells = path.verbs;
          coords = path.points;
          src_verb = length before;
          src_pts = length (all_points before);
          dst_verb = length before;
          dst_pts = length (all_points before);
        } in
        let m : Compacts plane start (verbs_of before) [] (all_points before) [] segs = record {
          cells_eq = vs ∙ verbs_of-append before segs;
          coords_eq = ps ∙ all_points-append before segs;
          dst_verb_eq = sym (length-verbs_of before);
          src_verb_eq = omega (arith, length-verbs_of before);
          dst_pts_eq = refl;
          src_pts_eq = omega arith;
          gap = inl (refl, refl);
        } in
        let outcome =
          prune_loop-pruned plane segs start (verbs_of before) [] (all_points before) [] m in
        rw left (erased path _ _ (rw (append-nil (all_points before)) at outcome))

  abbrev Keeps : Bool → Option (Vec2D plane) → List (Segment (Vec2D plane)) → Type 0
  Keeps is_open pen segs =
      (out : List (Segment (Vec2D plane))) × (pruned plane pen segs ≡ some out)
      × IsContours is_open out
      × (open_after is_open out ≡ open_after is_open segs)

  keep-edge :
      (s : Segment (Vec2D plane)) (segs : List (Segment (Vec2D plane))) (is_open kept : Bool)
      (pen : Option (Vec2D plane))
      → is_open ≡ true
      → ((xs : List (Segment (Vec2D plane))) → IsContours true xs → IsContours is_open (s ∷ xs))
      → ((xs : List (Segment (Vec2D plane))) → open_after is_open (s ∷ xs) ≡ open_after true xs)
      → keeps plane pen s ≡ some kept
      → Keeps true (last_of pen (points_of s)) segs
      → Keeps is_open pen (s ∷ segs)
  keep-edge s segs is_open true pen o c opens kept (out, e, ok, same) =
      (s ∷ out, rw (kept, e) refl, c out ok, opens out ∙ same ∙ sym (opens segs))
  keep-edge s segs is_open false pen o c opens kept (out, e, ok, same) =
      (out, rw (kept, e) refl, rw o ok, ap (λ b. open_after b out) o ∙ same ∙ sym (opens segs))

  keeps-some :
      (pen : Option (Vec2D plane)) (p : Vec2D plane) (s : Segment (Vec2D plane))
      → pen ≡ some p
      → (kept : Bool) × (keeps plane pen s ≡ some kept)
  keeps-some pen p (move a) e = (true, refl)
  keeps-some pen p close e = (true, refl)
  keeps-some pen p (line a) e = (differ plane a p, rw e refl)
  keeps-some pen p (quad a b) e = elim (Bool-cases (differ plane b a)) [
    | inl away ↦ (true, rw away refl)
    | inr same ↦ (differ plane a p, rw (same, e) refl)
  ]
  keeps-some pen p (cubic a b c) e = elim (Bool-cases (differ plane c b)) [
    | inl away ↦ (true, rw away refl)
    | inr same ↦ elim (Bool-cases (differ plane b a)) [
      | inl away ↦ (true, rw (same, away) refl)
      | inr same' ↦ (differ plane a p, rw (same, same', e) refl)
    ]
  ]

  -- Segments in contours always have a point to be compared with, and what is kept of them are
  -- contours again, of which the last is open as before.
  pub pruned-IsContours :
      (segs : List (Segment (Vec2D plane))) (is_open : Bool) (pen : Option (Vec2D plane))
      → (is_open ≡ true → (p : Vec2D plane) × (pen ≡ some p))
      → IsContours is_open segs
      → Keeps is_open pen segs
  pruned-IsContours [] is_open pen has c = ([], refl, tt, refl)
  pruned-IsContours (move a ∷ segs) is_open pen has c =
      let (out, e, ok, same) = pruned-IsContours segs true (some a) (λ o. (a, refl)) c in
      (move a ∷ out, rw e refl, ok, same)
  pruned-IsContours (close ∷ segs) is_open pen has (o, c) =
      let (out, e, ok, same) = pruned-IsContours segs false pen (λ shut. cc) c in
      (close ∷ out, rw e refl, (o, ok), same)
  pruned-IsContours (line a ∷ segs) is_open pen has (o, c) =
      let (p, here) = has o in
      let (kept, e) = keeps-some pen p (line a) here in
      keep-edge (line a) segs is_open kept pen o (λ xs d. (o, d)) (λ xs. refl) e
        (pruned-IsContours segs true (some a) (λ _. (a, refl)) c)
  pruned-IsContours (quad a b ∷ segs) is_open pen has (o, c) =
      let (p, here) = has o in
      let (kept, e) = keeps-some pen p (quad a b) here in
      keep-edge (quad a b) segs is_open kept pen o (λ xs d. (o, d)) (λ xs. refl) e
        (pruned-IsContours segs true (some b) (λ _. (b, refl)) c)
  pruned-IsContours (cubic a b d ∷ segs) is_open pen has (o, c) =
      let (p, here) = has o in
      let (kept, e) = keeps-some pen p (cubic a b d) here in
      keep-edge (cubic a b d) segs is_open kept pen o (λ xs k. (o, k)) (λ xs. refl) e
        (pruned-IsContours segs true (some d) (λ _. (d, refl)) c)
