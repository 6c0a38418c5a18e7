-- ===== src/Math/RawPath/Pruned.antt =====
-- pruneEmptySegments (src/math/raw_path.cpp) as a whole.
use rive_cpp_legacy.Prelude.{
  suc, ◌<◌, ◌≡◌, refl, sym, ap, ◌∙◌, inl, inr, true, false, List, [], ◌∷◌, ◌++◌, Option, none, some,
  length, get_elem?, length-append, get_elem?-append_right, get_elem?-append_length, last_of,
  last_of-append, arith, Option-cases,
}
use mathlib.Core.List.{append_assoc, append-nil}
use rive_cpp_legacy.Prelude.Fallible.{◌>>=◌}
use rive_cpp_legacy.Math.RawPath.{PathVerb, Plane, Vec2D}
use rive_cpp_legacy.Math.RawPath.Segments.{
  Segment, move, line, quad, cubic, close, verb_of, points_of, verbs_of, all_points,
}
use rive_cpp_legacy.Math.RawPath.Replay.{length-points_of}
use rive_cpp_legacy.Math.RawPath.Prune.{keeps, pruned, is_kept-keeps}
use rive_cpp_legacy.Math.RawPath.Compact.{is_kept, Cursor, pass_pruned, keep_segment, prune_loop}
use rive_cpp_legacy.Math.RawPath.PruneLoop.{Compacts, keep-closed, keep-wide}

module _ (plane : Plane) where
  -- The loop ends with the kept segments behind those that were kept before it, or fails.
  abbrev pub Outcome :
      Option (List (Segment (Vec2D plane)))
      → Option (Cursor plane)
      → List PathVerb
      → List (Vec2D plane)
      → Type 0
  Outcome none r kv kp = r ≡ none
  Outcome (some out) r kv kp =
      (c : Cursor plane) × (jv : List PathVerb) × (jp : List (Vec2D plane)) × (r ≡ some c)
      × Compacts plane c (kv ++ verbs_of out) jv (kp ++ all_points out) jp []

  keep-Outcome :
      (o : Option (List (Segment (Vec2D plane)))) (r : Option (Cursor plane)) (kv : List PathVerb)
      (kp : List (Vec2D plane)) (s : Segment (Vec2D plane))
      → Outcome o r (kv ++ verb_of s ∷ []) (kp ++ points_of s)
      → Outcome (o >>= λ rest. some (s ∷ rest)) r kv kp
  keep-Outcome none r kv kp s h = h
  keep-Outcome (some out) r kv kp s (c, jv, jp, e, m) = (
    c,
    jv,
    jp,
    e,
    rw
        (
          ← append_assoc kv (verb_of s ∷ []) (verbs_of out),
          ← append_assoc kp (points_of s) (all_points out),
        )
        m,
  )

  has_points :
      (pen : Option (Vec2D plane)) (s : Segment (Vec2D plane))
      → keeps plane pen s ≡ some false
      → 0 < length (points_of s)
  has_points pen (move a) e = omega arith
  has_points pen (line a) e = omega arith
  has_points pen (quad a b) e = omega arith
  has_points pen (cubic a b c) e = omega arith
  has_points pen close e = cc

  module _ (c : Cursor plane) (kv jv : List PathVerb) (kp jp : List (Vec2D plane))
      (s : Segment (Vec2D plane)) (segs : List (Segment (Vec2D plane)))
      (m : Compacts plane c kv jv kp jp (s ∷ segs)) where
    next_verb : get_elem? c.cells c.src_verb ≡ some (verb_of s)
    next_verb =
        rw (m.cells_eq, m.src_verb_eq)
          (get_elem?-append_right kv (jv ++ verb_of s ∷ verbs_of segs) (length jv)
            ∙ get_elem?-append_length jv (verbs_of segs) (verb_of s))

    next_kept :
        is_kept plane c.coords (verb_of s) c.src_pts ≡ keeps plane (last_of none (kp ++ jp)) s
    next_kept =
        let at : c.src_pts ≡ length (kp ++ jp) = omega (arith, m.src_pts_eq, length-append kp jp) in
        rw (m.coords_eq, at, ← append_assoc kp jp (points_of s ++ all_points segs))
          (is_kept-keeps plane s (kp ++ jp) (all_points segs))

    drop-Compacts :
        (pen : Option (Vec2D plane))
        → keeps plane pen s ≡ some false
        → Compacts plane
            (pass_pruned plane (verb_of s) c)
            kv
            (jv ++ verb_of s ∷ [])
            kp
            (jp ++ points_of s)
            segs
    drop-Compacts pen e =
        let nv = length-append jv (verb_of s ∷ []) in
        let np = length-append jp (points_of s) in
        record {
          cells_eq =
              m.cells_eq
              ∙ ap (λ l. kv ++ l) (sym (append_assoc jv (verb_of s ∷ []) (verbs_of segs)));
          coords_eq =
              m.coords_eq
              ∙ ap (λ l. kp ++ l) (sym (append_assoc jp (points_of s) (all_points segs)));
          dst_verb_eq = m.dst_verb_eq;
          src_verb_eq = omega (arith, m.src_verb_eq, nv);
          dst_pts_eq = m.dst_pts_eq;
          src_pts_eq = omega (arith, m.src_pts_eq, np, length-points_of s);
          gap = inr (omega (arith, nv), omega (arith, np, has_points pen s e));
        }

    keep-Compacts :
        (c' : Cursor plane) × (jv' : List PathVerb) × (jp' : List (Vec2D plane)) × (keep_segment
            plane
            (verb_of s)
            c
          ≡ some c')
        × Compacts plane c' (kv ++ verb_of s ∷ []) jv' (kp ++ points_of s) jp' segs
        × (last_of none ((kp ++ points_of s) ++ jp') ≡ last_of none ((kp ++ jp) ++ points_of s))
    keep-Compacts = elim (m.gap) [
      | inl (nv, np) ↦
          let (c', e, m') = keep-closed plane c kv jv kp jp s segs m nv np in
          (c', [], [], e, m', rw (np, append-nil kp, append-nil (kp ++ points_of s)) refl)
      | inr (pv, pp) ↦ keep-wide plane c kv jv kp jp s segs m pv pp
    ]

    abbrev pen : Option (Vec2D plane)
    pen = last_of none (kp ++ jp)

    pen_after : last_of none ((kp ++ jp) ++ points_of s) ≡ last_of pen (points_of s)
    pen_after = last_of-append none (kp ++ jp) (points_of s)

    loop-none : keeps plane pen s ≡ none → prune_loop plane (suc (length segs)) c ≡ none
    unfolding prune_loop
    loop-none unread = rw next_verb (rw (next_kept, unread) refl)

    loop-keep :
        (c' : Cursor plane)
        → keeps plane pen s ≡ some true
        → keep_segment plane (verb_of s) c ≡ some c'
        → prune_loop plane (suc (length segs)) c ≡ prune_loop plane (length segs) c'
    unfolding prune_loop
    loop-keep c' kept e =
        rw next_verb
          (rw (next_kept, kept) (ap (λ o. o >>= λ c''. prune_loop plane (length segs) c'') e))

    loop-drop :
        keeps plane pen s ≡ some false
        → prune_loop plane (suc (length segs)) c
          ≡ prune_loop plane (length segs) (pass_pruned plane (verb_of s) c)
    unfolding prune_loop
    loop-drop dropped = rw next_verb (rw (next_kept, dropped) refl)

  loop-end : (c : Cursor plane) → prune_loop plane 0 c ≡ some c
  unfolding prune_loop
  loop-end c = refl

  -- What is kept behind a segment that is dropped.
  >>=-pure : (o : Option (List (Segment (Vec2D plane)))) → (o >>= λ rest. some rest) ≡ o
  >>=-pure none = refl
  >>=-pure (some rest) = refl

  pub prune_loop-pruned :
      (segs : List (Segment (Vec2D plane))) (c : Cursor plane) (kv jv : List PathVerb)
      (kp jp : List (Vec2D plane))
      → Compacts plane c kv jv kp jp segs
      → Outcome
          (pruned plane (last_of none (kp ++ jp)) segs)
          (prune_loop plane (length segs) c)
          kv
          kp
  prune_loop-pruned [] c kv jv kp jp m =
      (c, jv, jp, loop-end c, rw (append-nil kv, append-nil kp) m)
  prune_loop-pruned (s ∷ segs) c kv jv kp jp m =
      elim (Option-cases (keeps plane (last_of none (kp ++ jp)) s)) [
        | inl unread ↦ rw (unread, loop-none c kv jv kp jp s segs m unread) refl
        | inr (true, kept) ↦
            let (c', jv', jp', e, m', last) = keep-Compacts c kv jv kp jp s segs m in
            let ih =
              prune_loop-pruned segs c' (kv ++ verb_of s ∷ []) jv' (kp ++ points_of s) jp' m' in
            rw (kept, loop-keep c kv jv kp jp s segs m c' kept e)
              (keep-Outcome _ _ kv kp s (rw (last, pen_after c kv jv kp jp s segs m) at ih))
        | inr (false, dropped) ↦
            let m' = drop-Compacts c kv jv kp jp s segs m (last_of none (kp ++ jp)) dropped in
            let ih =
              prune_loop-pruned segs (pass_pruned plane (verb_of s) c) kv (jv ++ verb_of s ∷ []) kp
                (jp ++ points_of s) m' in
            rw
              (
                dropped,
                loop-drop c kv jv kp jp s segs m dropped,
                >>=-pure (pruned plane (last_of (last_of none (kp ++ jp)) (points_of s)) segs),
              )
              (rw (← append_assoc kp jp (points_of s), pen_after c kv jv kp jp s segs m) at ih)
      ]
