-- ===== src/Tests/Listeners.antt =====
-- Witnesses and tests of the listeners (src/animation/state_machine_instance.cpp). The shapes 1 to 3
-- are boxes in the plane of whole numbers, and 3 is an opaque target. The listener 7 waits for
-- clicks and 8 for the pointer to enter.
use rive_cpp_legacy.Prelude.{
  count, ℕ, suc, ◌+◌, ◌-◌, ◌*◌, ◌≤◌, ◌≡◌, ◌≢◌, refl, true, false, List, [], ◌∷◌, some, leb,
  if◌then◌else◌, ◌==◌,
}
use rive_cpp_legacy.Prelude.Int.{pos}
use rive_cpp_legacy.Animation.Listeners.{
  ListenerType, GestureClickPhase, HitResult, Host, HitShape, HitComponent, hit_shape,
  hit_nested_artboard, add_listener, make_hit_shape,
}
use rive_cpp_legacy.Animation.Listeners.Process.{
  Position, update_listeners, pointer_down, pointer_up,
}
use rive_cpp_legacy.Animation.Listeners.Logged.{logged, Logged, log}
use rive_cpp_legacy.Animation.Listeners.Once.{update_listeners-once}
use rive_cpp_legacy.Animation.Listeners.Click.{update_listeners-click}
use rive_cpp_legacy.Animation.Listeners.Clicked.{moves, held, click_gesture}

-- The world counts what happened in it.
abbrev plane : Host
plane = record {
  Float = ℕ;
  World = ℕ;
  of_ℕ = λ n. n;
  add = ◌+◌;
  sub = ◌-◌;
  mul = ◌*◌;
  le = leb;
  round = pos;
  frame_origin = λ w. true;
  origin_x = λ w. 1;
  width = λ w. 100;
  origin_y = λ w. 0;
  height = λ w. 100;
  world_bounds = λ c w.
      if c == 2
      then (record { min_x = 50; min_y = 50; max_x = 60; max_y = 60 })
      else (record { min_x = 0; min_y = 0; max_x = 40; max_y = 40 });
  hit_test_area = λ c area w. true;
  is_target_opaque = λ c w. c == 3;
  listener_type = λ g. if g == 7 then ListenerType.click else ListenerType.enter;
  perform_changes = λ g p previous w. w + 1;
  is_collapsed = λ c w. false;
  world_to_local = λ c p w. some p;
  nested_machines = λ c w. 1 ∷ [];
  nested_down = λ m p w. (HitResult.hit, w + 10);
  nested_up = λ m p w. (HitResult.hit, w + 10);
  nested_move = λ m p w. (HitResult.none, w + 10);
  nested_exit = λ m p w. (HitResult.none, w + 10);
}

abbrev at : ℕ → ℕ → Position plane
at x y = record { x = x; y = y }

abbrev idle : Logged plane
idle = record {
  groups = λ g. record {
    previous_position = at 0 0;
    is_consumed = true;
    is_hovered = false;
    prev_is_hovered = false;
    click_phase = GestureClickPhase.clicked;
  };
  shape_hovered = λ c. false;
  needs_advance = false;
  world = (0, []);
}

abbrev button : HitShape
button = record {
  component = 1;
  can_early_out = true;
  has_down_listener = true;
  has_up_listener = true;
  listeners = 7 ∷ [];
}

abbrev label : HitShape
label = record {
  component = 2;
  can_early_out = true;
  has_down_listener = false;
  has_up_listener = false;
  listeners = [];
}

add_listener_test : add_listener plane 7 (make_hit_shape plane 1 0) ≡ button
unfolding add_listener
add_listener_test = refl

abbrev scene : List HitComponent
scene = hit_shape label ∷ hit_nested_artboard 9 ∷ hit_shape button ∷ []

update_listeners-once_example :
    count 7 (log plane (pointer_down (logged plane) (7 ∷ []) scene (at 110 20) idle).1)
    ≤ suc (count 7 (log plane idle))
update_listeners-once_example =
    update_listeners-once plane ListenerType.down down_apart (7 ∷ []) scene (at 110 20) idle 7
  where
    down_apart : ListenerType.down ≢ ListenerType.enter
    down_apart e = cc

abbrev pressed : Logged plane
pressed = (pointer_down (logged plane) (7 ∷ []) scene (at 110 20) idle).1

update_listeners-click_example :
    (ListenerType.up ≡ ListenerType.up) × ((pressed.groups 7).click_phase ≡ GestureClickPhase.down)
unfolding update_listeners
update_listeners-click_example =
    update_listeners-click plane ListenerType.up up_apart (7 ∷ []) scene (at 120 30) pressed 7 refl
      refl performed
  where
    up_apart : ListenerType.up ≢ ListenerType.click
    up_apart e = cc

    one_ne_zero : ◌≢◌ {A = ℕ} 1 0
    one_ne_zero e = cc

    performed :
        count 7 (log plane (pointer_up (logged plane) (7 ∷ []) scene (at 120 30) pressed).1)
        ≢ count 7 (log plane pressed)
    performed = one_ne_zero

click_gesture_example :
    count 7 (
      log plane
        (pointer_up (logged plane) (7 ∷ []) scene (at 120 30) (
          held plane
            (7 ∷ [])
            (hit_shape label ∷ hit_nested_artboard 9 ∷ [])
            button
            []
            (at 110 20)
            (at 10 10 ∷ at 500 500 ∷ [])
            idle)).1)
    ≡ 1
unfolding update_listeners
click_gesture_example =
    click_gesture plane (7 ∷ []) (hit_shape label ∷ hit_nested_artboard 9 ∷ []) [] button 7
      (at 110 20) (at 120 30) (at 10 10 ∷ at 500 500 ∷ []) idle refl refl refl refl refl refl refl
      ((λ s. refl), ((λ s. refl), tt)) refl ((λ s. refl), ((λ s. refl), tt))

-- Two shapes share a listener, and the upper one is opaque: a click on it is lost, since the lower
-- one's turn takes the press back.
abbrev upper : HitShape
upper = record {
  component = 3;
  can_early_out = false;
  has_down_listener = true;
  has_up_listener = true;
  listeners = 7 ∷ [];
}

lost_click_test :
    count 7 (
      log plane
        (pointer_up
          (logged plane)
          (7 ∷ [])
          (hit_shape upper ∷ hit_shape button ∷ [])
          (at 110 20)
          (pointer_down
            (logged plane)
            (7 ∷ [])
            (hit_shape upper ∷ hit_shape button ∷ [])
            (at 110 20)
            idle).1).1)
    ≡ 0
unfolding update_listeners
lost_click_test = refl

-- And the pointer enters it at every second move over it.
abbrev entered : HitShape → HitShape
entered shape = record shape {
  can_early_out = false;
  has_down_listener = false;
  has_up_listener = false;
  listeners = 8 ∷ [];
}

entered_again_test :
    count 8 (
      log plane (
        moves plane
          (8 ∷ [])
          (hit_shape (entered upper) ∷ hit_shape (entered button) ∷ [])
          (at 110 20 ∷ at 110 20 ∷ at 110 20 ∷ [])
          idle))
    ≡ 2
unfolding update_listeners
entered_again_test = refl
