-- ===== src/Math/RawPath/Segments.antt =====
-- What a RawPath (src/math/raw_path.cpp) stands for: a sequence of segments, each a verb with its
-- points. In a sequence that is drawn call by call, each contour begins with a move.
use rive_cpp_legacy.Prelude.{◌≡◌, refl, ap, Bool, true, false, List, [], ◌∷◌, ◌++◌}
use mathlib.Core.List.{append_assoc}
use rive_cpp_legacy.Math.RawPath.{PathVerb}

pub data Segment (V : Type 0) : Type 0 where
  move : V → Segment V
  line : V → Segment V
  quad : V → V → Segment V
  cubic : V → V → V → Segment V
  close : Segment V

module _ {V : Type 0} where
  abbrev pub verb_of : Segment V → PathVerb
  verb_of (move a) = PathVerb.move
  verb_of (line a) = PathVerb.line
  verb_of (quad a b) = PathVerb.quad
  verb_of (cubic a b c) = PathVerb.cubic
  verb_of close = PathVerb.close

  abbrev pub points_of : Segment V → List V
  points_of (move a) = a ∷ []
  points_of (line a) = a ∷ []
  points_of (quad a b) = a ∷ b ∷ []
  points_of (cubic a b c) = a ∷ b ∷ c ∷ []
  points_of close = []

  abbrev pub verbs_of : List (Segment V) → List PathVerb
  verbs_of [] = []
  verbs_of (s ∷ segs) = verb_of s ∷ verbs_of segs

  abbrev pub all_points : List (Segment V) → List V
  all_points [] = []
  all_points (s ∷ segs) = points_of s ++ all_points segs

  -- Whether a contour is open behind the segments, if it was before them.
  abbrev pub open_after : Bool → List (Segment V) → Bool
  open_after was_open [] = was_open
  open_after was_open (close ∷ segs) = open_after false segs
  open_after was_open (move a ∷ segs) = open_after true segs
  open_after was_open (line a ∷ segs) = open_after true segs
  open_after was_open (quad a b ∷ segs) = open_after true segs
  open_after was_open (cubic a b c ∷ segs) = open_after true segs

  -- Where the last contour began.
  abbrev pub start_after : V → List (Segment V) → V
  start_after start [] = start
  start_after start (move a ∷ segs) = start_after a segs
  start_after start (line a ∷ segs) = start_after start segs
  start_after start (quad a b ∷ segs) = start_after start segs
  start_after start (cubic a b c ∷ segs) = start_after start segs
  start_after start (close ∷ segs) = start_after start segs

  -- Only a move stands outside a contour.
  abbrev pub IsContours : Bool → List (Segment V) → Type 0
  IsContours was_open [] = Unit {0}
  IsContours was_open (move a ∷ segs) = IsContours true segs
  IsContours was_open (line a ∷ segs) = (was_open ≡ true) × IsContours true segs
  IsContours was_open (quad a b ∷ segs) = (was_open ≡ true) × IsContours true segs
  IsContours was_open (cubic a b c ∷ segs) = (was_open ≡ true) × IsContours true segs
  IsContours was_open (close ∷ segs) = (was_open ≡ true) × IsContours false segs

  -- What a drawing call adds: in a closed contour a move to where the last one began comes first,
  -- and a `close` adds nothing.
  abbrev pub drawn : Bool → V → Segment V → List (Segment V)
  drawn is_open start (move a) = move a ∷ []
  drawn true start (line a) = line a ∷ []
  drawn true start (quad a b) = quad a b ∷ []
  drawn true start (cubic a b c) = cubic a b c ∷ []
  drawn true start close = close ∷ []
  drawn false start (line a) = move start ∷ line a ∷ []
  drawn false start (quad a b) = move start ∷ quad a b ∷ []
  drawn false start (cubic a b c) = move start ∷ cubic a b c ∷ []
  drawn false start close = []

  pub verbs_of-append :
      (xs ys : List (Segment V)) → verbs_of (xs ++ ys) ≡ verbs_of xs ++ verbs_of ys
  verbs_of-append [] ys = refl
  verbs_of-append (s ∷ xs) ys = ap (λ vs. verb_of s ∷ vs) (verbs_of-append xs ys)

  pub all_points-append :
      (xs ys : List (Segment V)) → all_points (xs ++ ys) ≡ all_points xs ++ all_points ys
  all_points-append [] ys = refl
  all_points-append (s ∷ xs) ys = rw (all_points-append xs ys, append_assoc)

  pub open_after-append :
      (was_open : Bool) (xs ys : List (Segment V))
      → open_after was_open (xs ++ ys) ≡ open_after (open_after was_open xs) ys
  open_after-append was_open [] ys = refl
  open_after-append was_open (close ∷ xs) ys = open_after-append false xs ys
  open_after-append was_open (move a ∷ xs) ys = open_after-append true xs ys
  open_after-append was_open (line a ∷ xs) ys = open_after-append true xs ys
  open_after-append was_open (quad a b ∷ xs) ys = open_after-append true xs ys
  open_after-append was_open (cubic a b c ∷ xs) ys = open_after-append true xs ys

  pub start_after-append :
      (start : V) (xs ys : List (Segment V))
      → start_after start (xs ++ ys) ≡ start_after (start_after start xs) ys
  start_after-append start [] ys = refl
  start_after-append start (move a ∷ xs) ys = start_after-append a xs ys
  start_after-append start (line a ∷ xs) ys = start_after-append start xs ys
  start_after-append start (quad a b ∷ xs) ys = start_after-append start xs ys
  start_after-append start (cubic a b c ∷ xs) ys = start_after-append start xs ys
  start_after-append start (close ∷ xs) ys = start_after-append start xs ys

  pub append-IsContours :
      (was_open : Bool) (xs ys : List (Segment V))
      → IsContours was_open xs
      → IsContours (open_after was_open xs) ys
      → IsContours was_open (xs ++ ys)
  append-IsContours was_open [] ys h k = k
  append-IsContours was_open (move a ∷ xs) ys h k = append-IsContours true xs ys h k
  append-IsContours was_open (line a ∷ xs) ys (o, h) k = (o, append-IsContours true xs ys h k)
  append-IsContours was_open (quad a b ∷ xs) ys (o, h) k = (o, append-IsContours true xs ys h k)
  append-IsContours was_open (cubic a b c ∷ xs) ys (o, h) k = (o, append-IsContours true xs ys h k)
  append-IsContours was_open (close ∷ xs) ys (o, h) k = (o, append-IsContours false xs ys h k)

  pub drawn-IsContours :
      (is_open : Bool) (start : V) (s : Segment V) → IsContours is_open (drawn is_open start s)
  drawn-IsContours is_open start (move a) = tt
  drawn-IsContours true start (line a) = (refl, tt)
  drawn-IsContours true start (quad a b) = (refl, tt)
  drawn-IsContours true start (cubic a b c) = (refl, tt)
  drawn-IsContours true start close = (refl, tt)
  drawn-IsContours false start (line a) = (refl, tt)
  drawn-IsContours false start (quad a b) = (refl, tt)
  drawn-IsContours false start (cubic a b c) = (refl, tt)
  drawn-IsContours false start close = tt
