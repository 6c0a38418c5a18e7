-- ===== src/Animation/Listeners/Gesture.antt =====
-- A whole click: a press, any moves and a release (src/animation/state_machine_instance.cpp).
use rive_cpp_legacy.Prelude.{
  ℕ, ◌≡◌, refl, sym, subst, ◌∙◌, true, false, List, ◌∷◌, ◌++◌, arith, contains, All,
}
use rive_cpp_legacy.Animation.Listeners.{
  ListenerType, HitResult, Host, HitShape, HitComponent, hit_shape,
}
use rive_cpp_legacy.Animation.Listeners.Process.{
  Position, process_groups, process_all, reset_all, prepare_all, update_listeners, in_frame,
  early_out, hit_test, pointer_down,
}
use rive_cpp_legacy.Animation.Listeners.Keeps.{
  process_all_keeps, process_all_below, process_all_shape, all_listeners, IsClear, true_ne_false,
}
use rive_cpp_legacy.Animation.Listeners.Logged.{logged, Logged}
use rive_cpp_legacy.Animation.Listeners.Press.{
  IsHeld, IsPressed, by_turn, press_turn, press_groups, ready-IsHeld, apart_in,
}

pub in_time_down :
    (shape : HitShape) → shape.has_down_listener ≡ true → early_out shape ListenerType.down ≡ false
in_time_down shape hears = ground (arith, hears)

pub in_time_up :
    (shape : HitShape) → shape.has_up_listener ≡ true → early_out shape ListenerType.up ≡ false
in_time_up shape hears = ground (arith, hears)

module _ (host : Host) (g : ℕ) where
  IsPressed-below :
      (p : Position host) (type : ListenerType) (after : List HitComponent) (so_far : HitResult)
      (s : Logged host)
      → contains (all_listeners after) g ≡ false
      → IsPressed host g s
      → IsPressed host g (process_all (logged host) p type so_far after s).1
  IsPressed-below p type after so_far s without pressed =
      process_all_keeps (logged host) type (IsPressed host g) p so_far after s
        (λ can_hit h u among was.
          by_turn host g (IsPressed host g) p type can_hit h u was
            (λ here fresh.
              absurd
                (true_ne_false (sym here ∙ apart_in host g (all_listeners after) h without among)))
            (λ v e more. rw e was))
        (λ can_hit c o u was. was) pressed

  module _ (wants : host.listener_type g ≡ ListenerType.click) (groups : List ℕ)
      (known : contains groups g ≡ true) (before after : List HitComponent) (shape : HitShape)
      (among : contains shape.listeners g ≡ true) where
    abbrev components : List HitComponent
    components = before ++ hit_shape shape ∷ after

    pub down_IsPressed :
        (p : Position host) (s : Logged host)
        → shape.has_down_listener ≡ true
        → contains (all_listeners after) g ≡ false
        → All (IsClear (logged host) ListenerType.down (in_frame (logged host) s.world p)) before
        → hit_test (logged host) shape.component (in_frame (logged host) s.world p) s.world ≡ true
        → IsPressed host g (pointer_down (logged host) groups components p s).1
    unfolding update_listeners
    down_IsPressed p s hears without clear over =
        let type = ListenerType.down in
        let q = in_frame (logged host) s.world p in
        let held =
          ready-IsHeld host g groups before after shape type q s known among
            (in_time_down shape hears) over in
        let start =
          prepare_all (logged host) q type components (reset_all (logged host) groups s) in
        let (so_far, u, e, open_up, held') =
          process_all_below (logged host) type (IsHeld host g) q HitResult.none before
            (hit_shape shape ∷ after) start refl clear
            (λ h v listed hold. press_turn host g wants q h v hold) (λ can_hit c o v hold. hold)
            held in
        let (so_far', e') =
          process_all_shape (logged host) q type so_far shape after u open_up
            (in_time_down shape hears) in
        subst (λ r. IsPressed host g r.1) (sym (e ∙ e'))
          (IsPressed-below q type after so_far'
            (process_groups (logged host) q type true shape.listeners u) without
            (press_groups host g wants q shape.listeners u among held'))
