-- ===== src/Animation/Listeners/Clicked.antt =====
-- A whole click of the pointer (src/animation/state_machine_instance.cpp).
use rive_cpp_legacy.Prelude.{
  count, ℕ, suc, ◌≡◌, ◌≢◌, refl, ◌∙◌, true, false, List, [], ◌∷◌, ◌++◌, arith, contains, All,
}
use rive_cpp_legacy.Animation.Listeners.{ListenerType, Host, HitShape, HitComponent, hit_shape}
use rive_cpp_legacy.Animation.Listeners.Process.{
  Position, in_frame, hit_test, pointer_down, pointer_up, pointer_move,
}
use rive_cpp_legacy.Animation.Listeners.Keeps.{all_listeners, IsClear}
use rive_cpp_legacy.Animation.Listeners.Logged.{logged, Logged, log}
use rive_cpp_legacy.Animation.Listeners.Once.{update_listeners-once}
use rive_cpp_legacy.Animation.Listeners.Click.{update_listeners_calm}
use rive_cpp_legacy.Animation.Listeners.Press.{IsPressed}
use rive_cpp_legacy.Animation.Listeners.Gesture.{down_IsPressed}
use rive_cpp_legacy.Animation.Listeners.Release.{move_IsPressed, up_performs}

module _ (host : Host) where
  -- The moves of the pointer, one after the other.
  abbrev pub moves : List ℕ → List HitComponent → List (Position host) → Logged host → Logged host
  moves groups components [] s = s
  moves groups components (p ∷ ps) s =
      moves groups components ps (pointer_move (logged host) groups components p s).1

  -- Moves perform no listener for clicks, and a press outlasts them.
  moves_calm :
      (groups : List ℕ) (components : List HitComponent) (ps : List (Position host))
      (s : Logged host) (g : ℕ)
      → host.listener_type g ≡ ListenerType.click
      → contains groups g ≡ true
      → IsPressed host g s
      → IsPressed host g (moves groups components ps s)
        × (count g (log host (moves groups components ps s)) ≡ count g (log host s))
  moves_calm groups components [] s g wants known pressed = (pressed, refl)
  moves_calm groups components (p ∷ ps) s g wants known pressed =
      let s1 = (pointer_move (logged host) groups components p s).1 in
      let (pressed', e) =
        moves_calm groups components ps s1 g wants known
          (move_IsPressed host g groups components p s pressed) in
      (
        pressed',
        e
            ∙ update_listeners_calm host ListenerType.move move_apart groups components p s g wants
                known refl,
      )
    where
      move_apart : ListenerType.move ≢ ListenerType.click
      move_apart e = cc

  -- After a press and moves.
  abbrev pub held :
      List ℕ
      → List HitComponent
      → HitShape
      → List HitComponent
      → Position host
      → List (Position host)
      → Logged host
      → Logged host
  held groups before shape after p ps s =
      moves groups (before ++ hit_shape shape ∷ after) ps
        (pointer_down (logged host) groups (before ++ hit_shape shape ∷ after) p s).1

  -- A press over a shape, moves of the pointer, and a release over the shape let a listener for its
  -- clicks perform its changes once. The shape hears presses and releases, no opaque component above
  -- it takes either, and no component below it shares the listener.
  pub click_gesture :
      (groups : List ℕ) (before after : List HitComponent) (shape : HitShape) (g : ℕ)
      (p q : Position host) (ps : List (Position host)) (s : Logged host)
      → host.listener_type g ≡ ListenerType.click
      → contains groups g ≡ true
      → contains shape.listeners g ≡ true
      → contains (all_listeners after) g ≡ false
      → shape.has_down_listener ≡ true
      → shape.has_up_listener ≡ true
      → hit_test (logged host) shape.component (in_frame (logged host) s.world p) s.world ≡ true
      → All (IsClear (logged host) ListenerType.down (in_frame (logged host) s.world p)) before
      → hit_test
          (logged host)
          shape.component
          (in_frame (logged host) (held groups before shape after p ps s).world q)
          (held groups before shape after p ps s).world
        ≡ true
      → All
          (IsClear
            (logged host)
            ListenerType.up
            (in_frame (logged host) (held groups before shape after p ps s).world q))
          before
      → count g (
          log host
            (pointer_up
              (logged host)
              groups
              (before ++ hit_shape shape ∷ after)
              q
              (held groups before shape after p ps s)).1)
        ≡ suc (count g (log host s))
  click_gesture groups before after shape g p q ps s wants known among without hears_down hears_up
        over_p clear_p over_q clear_q =
      let components = before ++ hit_shape shape ∷ after in
      let s1 = (pointer_down (logged host) groups components p s).1 in
      let s2 = moves groups components ps s1 in
      let (pressed, quiet) = moves_calm groups components ps s1 g wants known (
        down_IsPressed host g wants groups known before after shape among p s hears_down without
          clear_p over_p) in
      let calm =
        update_listeners_calm host ListenerType.down down_apart groups components p s g wants known
          refl in
      let performed =
        up_performs host g wants groups known before after shape among q s2 hears_up pressed clear_q
          over_q in
      let once = update_listeners-once host ListenerType.up up_apart groups components q s2 g in
      omega (arith, quiet, calm, performed, once)
    where
      down_apart : ListenerType.down ≢ ListenerType.click
      down_apart e = cc

      up_apart : ListenerType.up ≢ ListenerType.enter
      up_apart e = cc
