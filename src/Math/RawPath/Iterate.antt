-- ===== src/Math/RawPath/Iterate.antt =====
-- RawPath::Iter, `morph` (include/rive/math/raw_path.hpp) and `addTo` (src/math/raw_path.cpp).
use rive_cpp_legacy.Prelude.{
  ℕ, ◌+◌, ◌-◌, List, [], ◌∷◌, Option, none, some, get_elem?, if◌then◌else◌, ltb,
}
use rive_cpp_legacy.Prelude.Fallible.{◌>>=◌}
use rive_cpp_legacy.Math.RawPath.{
  PathVerb, Plane, RawPath, Vec2D, new_path, pts_advance_after_verb, pts_backset_for_verb, move_to,
  line_to, quad_to, cubic_to, close_path,
}

module _ (plane : Plane) where
  open plane use {Float, two_thirds, add, sub, mul}

  -- `pts()[k]` of an iterator at a verb, whose `m_pts` is the point `i`.
  unfoldable pub pts_at : List (Vec2D plane) → ℕ → PathVerb → ℕ → Option (Vec2D plane)
  unfolding pts_backset_for_verb
  pts_at points i v k =
      if ltb (i + k) (pts_backset_for_verb v)
      then none
      else get_elem? points (i + k - pts_backset_for_verb v)

  -- One round of the loop of `morph`.
  unfoldable pub morph_step :
      (Vec2D plane → Vec2D plane)
      → List (Vec2D plane)
      → PathVerb
      → ℕ
      → RawPath plane
      → Option (RawPath plane)
  unfolding move_to line_to quad_to cubic_to close_path
  morph_step proc points PathVerb.move i dst = do
    a ← pts_at points i PathVerb.move 0
    some (move_to plane (proc a) dst)
  morph_step proc points PathVerb.line i dst = do
    a ← pts_at points i PathVerb.line 1
    line_to plane (proc a) dst
  morph_step proc points PathVerb.quad i dst = do
    a ← pts_at points i PathVerb.quad 1
    b ← pts_at points i PathVerb.quad 2
    quad_to plane (proc a) (proc b) dst
  morph_step proc points PathVerb.cubic i dst = do
    a ← pts_at points i PathVerb.cubic 1
    b ← pts_at points i PathVerb.cubic 2
    c ← pts_at points i PathVerb.cubic 3
    cubic_to plane (proc a) (proc b) (proc c) dst
  morph_step proc points PathVerb.close i dst = some (close_path plane dst)

  unfoldable pub morph_loop :
      (Vec2D plane → Vec2D plane)
      → List (Vec2D plane)
      → List PathVerb
      → ℕ
      → RawPath plane
      → Option (RawPath plane)
  unfolding morph_step pts_advance_after_verb
  morph_loop proc points [] i dst = some dst
  morph_loop proc points (v ∷ verbs) i dst =
      morph_step proc points v i dst >>= morph_loop proc points verbs (i + pts_advance_after_verb v)

  unfoldable pub morph : (Vec2D plane → Vec2D plane) → RawPath plane → Option (RawPath plane)
  unfolding morph_loop
  morph proc path = morph_loop proc path.points path.verbs 0 (new_path plane)

  -- The calls of a CommandPath.
  pub data Command : Type 0 where
    move_command : Vec2D plane → Command
    line_command : Vec2D plane → Command
    cubic_command : Vec2D plane → Vec2D plane → Vec2D plane → Command
    close_command : Command

  unfoldable pub lerp : Vec2D plane → Vec2D plane → Float → Vec2D plane
  lerp (ax, ay) (bx, by') t = (add ax (mul (sub bx ax) t), add ay (mul (sub by' ay) t))

  unfoldable pub command_at : List (Vec2D plane) → PathVerb → ℕ → Option Command
  unfolding lerp
  command_at points PathVerb.move i = do a ← pts_at points i PathVerb.move 0; some (move_command a)
  command_at points PathVerb.line i = do a ← pts_at points i PathVerb.line 1; some (line_command a)
  command_at points PathVerb.cubic i = do
    a ← pts_at points i PathVerb.cubic 1
    b ← pts_at points i PathVerb.cubic 2
    c ← pts_at points i PathVerb.cubic 3
    some (cubic_command a b c)
  command_at points PathVerb.close i = some close_command
  command_at points PathVerb.quad i = do
    p ← pts_at points i PathVerb.quad 0
    a ← pts_at points i PathVerb.quad 1
    b ← pts_at points i PathVerb.quad 2
    some (cubic_command (lerp p a two_thirds) (lerp b a two_thirds) b)

  unfoldable pub add_to_loop : List (Vec2D plane) → List PathVerb → ℕ → Option (List Command)
  unfolding command_at pts_advance_after_verb
  add_to_loop points [] i = some []
  add_to_loop points (v ∷ verbs) i = do
    command ← command_at points v i
    commands ← add_to_loop points verbs (i + pts_advance_after_verb v)
    some (command ∷ commands)

  unfoldable pub add_to : RawPath plane → Option (List Command)
  unfolding add_to_loop
  add_to path = add_to_loop path.points path.verbs 0
