-- ===== src/Animation/Listeners/Release.antt =====
-- The release of a click, and the whole of it (src/animation/state_machine_instance.cpp).
use rive_cpp_legacy.Prelude.{
  count, ℕ, suc, ◌≤◌, ◌≡◌, ◌⊎◌, refl, sym, ap, subst, ◌∙◌, Bool, true, false, List, [], ◌∷◌, ◌++◌,
  Option, ◌==◌, Bool-cases, ==_iff, arith, contains, inl, inr, ◌&&◌, All,
}
use rive_cpp_legacy.Animation.Listeners.{
  ListenerType, GestureClickPhase, HitResult, Host, HitShape, HitComponent, hit_shape,
}
use rive_cpp_legacy.Animation.Listeners.Process.{
  Position, next_phase, event_fires, process_group, process_groups, nested_at, reset, reset_all,
  prepare_all, update_listeners, in_frame, hit_test, pointer_up, pointer_move,
}
use rive_cpp_legacy.Animation.Listeners.Keeps.{
  process_groups_keeps, process_all_keeps, process_all_below, process_all_shape, IsClear,
  true_ne_false,
}
use rive_cpp_legacy.Animation.Listeners.Ready.{reset_all_keeps, prepare_all_keeps}
use rive_cpp_legacy.Animation.Listeners.Logged.{ready_log, logged, Logged, log, nested_at_log}
use rive_cpp_legacy.Animation.Listeners.Turn.{count-grows, Turned, process_group_lem, turn_phase}
use rive_cpp_legacy.Animation.Listeners.Click.{is_down, is_down_lem}
use rive_cpp_legacy.Animation.Listeners.Press.{IsHeld, IsPressed, by_turn, ready-IsHeld}
use rive_cpp_legacy.Animation.Listeners.Gesture.{in_time_up}

next_phase-move :
    (over : Bool) (phase : GestureClickPhase) → next_phase ListenerType.move over phase ≡ phase
unfolding next_phase
next_phase-move over phase = refl

module _ (host : Host) (g : ℕ) where
  event_counts :
      (hover event hovered : Bool) (phase : GestureClickPhase) (s u : Logged host)
      → Turned host g hover event hovered phase s u
      → event ≡ true
      → suc (count g (log host s)) ≤ count g (log host u)
  event_counts true event hovered phase s u turned fires =
      rw (turned.log_is, fires, (==_iff g g).1 refl) (omega arith)
  event_counts false event hovered phase s u turned fires =
      rw (turned.log_is, fires, (==_iff g g).1 refl) (omega arith)

  -- A move leaves a press as it is.
  pub move_IsPressed :
      (groups : List ℕ) (components : List HitComponent) (p : Position host) (s : Logged host)
      → IsPressed host g s
      → IsPressed host g (pointer_move (logged host) groups components p s).1
  unfolding update_listeners reset
  move_IsPressed groups components p s pressed =
      let type = ListenerType.move in
      let q = in_frame (logged host) s.world p in
      let s1 = reset_all (logged host) groups s in
      process_all_keeps (logged host) type (IsPressed host g) q HitResult.none components
        (prepare_all (logged host) q type components s1)
        (λ can_hit h u among was.
          by_turn host g (IsPressed host g) q type can_hit h u was
            (λ here fresh.
              ap is_down (
                (process_group_lem host q type can_hit g u fresh).phase_is
                ∙ next_phase-move (can_hit && (u.groups g).is_hovered) (u.groups g).click_phase)
              ∙ was)
            (λ v e more. rw e was))
        (λ can_hit c o u was. was)
        (prepare_all_keeps (logged host) (λ k. is_down k.click_phase ≡ true) (λ group r. r) q type
          components g s1
          (reset_all_keeps (logged host) (λ k. is_down k.click_phase ≡ true)
            (λ group down. rw (is_down_lem group.click_phase down) refl) groups g s pressed))

  module _ (wants : host.listener_type g ≡ ListenerType.click) where
    release_own :
        (p : Position host) (s : Logged host)
        → IsHeld host g s
        → IsPressed host g s
        → suc (count g (log host s))
          ≤ count g (log host (process_group (logged host) p ListenerType.up true g s))
    unfolding next_phase
    release_own p s (hovered, fresh) pressed =
        let type = ListenerType.up in
        let phase : turn_phase host type true (s.groups g) ≡ GestureClickPhase.clicked =
          ap (λ b. next_phase type b (s.groups g).click_phase) hovered
          ∙ ap (λ k. next_phase type true k) (is_down_lem (s.groups g).click_phase pressed) in
        event_counts _ _ _ _ s (process_group (logged host) p type true g s)
          (process_group_lem host p type true g s fresh)
          (ap
              (λ w.
                event_fires w type (s.groups g).is_hovered (turn_phase host type true (s.groups g)))
              wants
            ∙ ap (λ k. event_fires ListenerType.click type (s.groups g).is_hovered k) phase)

    -- Ready to perform its changes, or beyond `n` of them.
    abbrev IsDue : ℕ → Logged host → Type 0
    IsDue n s =
        (IsHeld host g s × IsPressed host g s × (n ≤ count g (log host s)))
        ⊎ (suc n ≤ count g (log host s))

    release_turn :
        (n : ℕ) (p : Position host) (h : ℕ) (s : Logged host)
        → IsDue n s
        → IsDue n (process_group (logged host) p ListenerType.up true h s)
    release_turn n p h s (inr done) =
        inr (omega (arith, done, count-grows host p ListenerType.up true g h s))
    release_turn n p h s (inl (held, pressed, more)) =
        by_turn host g (IsDue n) p ListenerType.up true h s (inl (held, pressed, more))
          (λ here fresh. inr (omega (arith, more, release_own p s held pressed)))
          (λ u e grown. inl (rw e held, rw e pressed, omega (arith, more, grown)))

    release_now :
        (n : ℕ) (p : Position host) (s : Logged host)
        → IsDue n s
        → suc n ≤ count g (log host (process_group (logged host) p ListenerType.up true g s))
    release_now n p s (inr done) =
        omega (arith, done, count-grows host p ListenerType.up true g g s)
    release_now n p s (inl (held, pressed, more)) =
        omega (arith, more, release_own p s held pressed)

    release_groups :
        (n : ℕ) (p : Position host) (gs : List ℕ) (s : Logged host)
        → contains gs g ≡ true
        → IsDue n s
        → suc n ≤ count g (log host (process_groups (logged host) p ListenerType.up true gs s))
    unfolding process_groups
    release_groups n p [] s among due = absurd (true_ne_false (sym among))
    release_groups n p (h ∷ gs) s among due = elim (Bool-cases (g == h)) [
      | inl here ↦
          process_groups_keeps (logged host) ListenerType.up (λ u. suc n ≤ count g (log host u)) p
            true gs (process_group (logged host) p ListenerType.up true h s)
            (λ o u listed done. omega (arith, done, count-grows host p ListenerType.up true g o u))
            (subst
              (λ k.
                suc n ≤ count g (log host (process_group (logged host) p ListenerType.up true k s)))
              ((==_iff g h).0 here) (release_now n p s due))
      | inr away ↦
          release_groups n p gs (process_group (logged host) p ListenerType.up true h s)
            (ground (arith, among, away)) (release_turn n p h s due)
    ]

    module _ (groups : List ℕ) (known : contains groups g ≡ true) (before after : List HitComponent)
        (shape : HitShape) (among : contains shape.listeners g ≡ true) where
      abbrev components : List HitComponent
      components = before ++ hit_shape shape ∷ after

      pub up_performs :
          (p : Position host) (s : Logged host)
          → shape.has_up_listener ≡ true
          → IsPressed host g s
          → All (IsClear (logged host) ListenerType.up (in_frame (logged host) s.world p)) before
          → hit_test (logged host) shape.component (in_frame (logged host) s.world p) s.world ≡ true
          → suc (count g (log host s))
            ≤ count g (log host (pointer_up (logged host) groups components p s).1)
      unfolding update_listeners reset
      up_performs p s hears pressed clear over =
          let type = ListenerType.up in
          let n = count g (log host s) in
          let q = in_frame (logged host) s.world p in
          let s1 = reset_all (logged host) groups s in
          let start = prepare_all (logged host) q type components s1 in
          let held =
            ready-IsHeld host g groups before after shape type q s known among
              (in_time_up shape hears) over in
          let pressed' =
            prepare_all_keeps (logged host) (λ k. is_down k.click_phase ≡ true) (λ group r. r) q
              type components g s1
              (reset_all_keeps (logged host) (λ k. is_down k.click_phase ≡ true)
                (λ group down. rw (is_down_lem group.click_phase down) refl) groups g s pressed) in
          let more : n ≤ count g (log host start) =
            rw (ready_log host groups components type q s) (omega arith) in
          let (so_far, u, e, open_up, due) =
            process_all_below (logged host) type (IsDue n) q HitResult.none before
              (hit_shape shape ∷ after) start refl clear (λ h v listed d. release_turn n q h v d)
              (λ can_hit c o v d. due_nested n can_hit c o v d) (inl (held, pressed', more)) in
          let (so_far', e') =
            process_all_shape (logged host) q type so_far shape after u open_up
              (in_time_up shape hears) in
          subst (λ r. suc n ≤ count g (log host r.1)) (sym (e ∙ e'))
            (process_all_keeps (logged host) type (λ v. suc n ≤ count g (log host v)) q so_far'
              after (process_groups (logged host) q type true shape.listeners u)
              (λ can_hit h v listed done.
                omega (arith, done, count-grows host q type can_hit g h v))
              (λ can_hit c o v done. rw (nested_at_log host type can_hit c o v.world) done)
              (release_groups n q shape.listeners u among due))
        where
          due_nested :
              (n : ℕ) (can_hit : Bool) (c : ℕ) (o : Option (Position host)) (v : Logged host)
              → IsDue n v
              → IsDue n (record v {
                world = (nested_at (logged host) ListenerType.up can_hit c o v.world).1;
              })
          due_nested n can_hit c o v (inl (held, pressed, more)) =
              inl (held, pressed, rw (nested_at_log host ListenerType.up can_hit c o v.world) more)
          due_nested n can_hit c o v (inr done) =
              inr (rw (nested_at_log host ListenerType.up can_hit c o v.world) done)
