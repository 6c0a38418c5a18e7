-- ===== src/Animation/Listeners/Logged.antt =====
-- The host that writes down which listeners perform their changes
-- (src/animation/state_machine_instance.cpp).
use rive_cpp_legacy.Prelude.{
  ℕ, ◌≡◌, refl, ap, ◌∙◌, Bool, true, false, List, [], ◌∷◌, Option, none, some,
}
use rive_cpp_legacy.Animation.Listeners.{ListenerType, HitResult, Host, HitComponent, State}
use rive_cpp_legacy.Animation.Listeners.Process.{
  Position, Group, nested_event, nested_events, nested_at, prepare_all, reset_all,
}
use rive_cpp_legacy.Animation.Listeners.Ready.{reset_all_world, prepare_all_world}

-- The same host, with the listeners that perform their changes, the last one first.
abbrev pub logged : Host → Host
logged host = record host {
  World = host.World × List ℕ;
  frame_origin = λ w. host.frame_origin w.0;
  origin_x = λ w. host.origin_x w.0;
  width = λ w. host.width w.0;
  origin_y = λ w. host.origin_y w.0;
  height = λ w. host.height w.0;
  world_bounds = λ c w. host.world_bounds c w.0;
  hit_test_area = λ c area w. host.hit_test_area c area w.0;
  is_target_opaque = λ c w. host.is_target_opaque c w.0;
  perform_changes = λ g p previous w. (host.perform_changes g p previous w.0, g ∷ w.1);
  is_collapsed = λ c w. host.is_collapsed c w.0;
  world_to_local = λ c p w. host.world_to_local c p w.0;
  nested_machines = λ c w. host.nested_machines c w.0;
  nested_down = λ m p w. ((host.nested_down m p w.0).0, ((host.nested_down m p w.0).1, w.1));
  nested_up = λ m p w. ((host.nested_up m p w.0).0, ((host.nested_up m p w.0).1, w.1));
  nested_move = λ m p w. ((host.nested_move m p w.0).0, ((host.nested_move m p w.0).1, w.1));
  nested_exit = λ m p w. ((host.nested_exit m p w.0).0, ((host.nested_exit m p w.0).1, w.1));
}

module _ (host : Host) where
  abbrev pub Logged : Type 0
  Logged = State (logged host)

  abbrev pub LoggedGroup : Type 0
  LoggedGroup = Group (logged host)

  abbrev pub log : Logged → List ℕ
  log s = s.world.1

  nested_event_log :
      (p : Position host) (type : ListenerType) (can_hit : Bool) (m : ℕ) (so_far : HitResult)
      (w : host.World × List ℕ)
      → (nested_event (logged host) p type can_hit m so_far w).1.1 ≡ w.1
  unfolding nested_event
  nested_event_log p ListenerType.enter can_hit m so_far w = refl
  nested_event_log p ListenerType.exit can_hit m so_far w = refl
  nested_event_log p ListenerType.down true m so_far w = refl
  nested_event_log p ListenerType.down false m so_far w = refl
  nested_event_log p ListenerType.up true m so_far w = refl
  nested_event_log p ListenerType.up false m so_far w = refl
  nested_event_log p ListenerType.move true m so_far w = refl
  nested_event_log p ListenerType.move false m so_far w = refl
  nested_event_log p ListenerType.event can_hit m so_far w = refl
  nested_event_log p ListenerType.click can_hit m so_far w = refl

  nested_events_log :
      (p : Position host) (type : ListenerType) (can_hit : Bool) (ms : List ℕ) (so_far : HitResult)
      (w : host.World × List ℕ)
      → (nested_events (logged host) p type can_hit ms so_far w).1.1 ≡ w.1
  unfolding nested_events
  nested_events_log p type can_hit [] so_far w = refl
  nested_events_log p type can_hit (m ∷ ms) so_far w =
      let r = nested_event (logged host) p type can_hit m so_far w in
      nested_events_log p type can_hit ms r.0 r.1 ∙ nested_event_log p type can_hit m so_far w

  -- What happens in a nested artboard is not written down.
  pub nested_at_log :
      (type : ListenerType) (can_hit : Bool) (component : ℕ) (o : Option (Position host))
      (w : host.World × List ℕ)
      → (nested_at (logged host) type can_hit component o w).1.1 ≡ w.1
  unfolding nested_at
  nested_at_log type can_hit component none w = refl
  nested_at_log type can_hit component (some p) w =
      nested_events_log p type can_hit (host.nested_machines component w.0) HitResult.none w

  -- Before the components process an event, nothing performs its changes.
  pub ready_log :
      (groups : List ℕ) (components : List HitComponent) (type : ListenerType) (q : Position host)
      (s : Logged)
      → log (prepare_all (logged host) q type components (reset_all (logged host) groups s)) ≡ log s
  ready_log groups components type q s =
      ap (λ (w : host.World × List ℕ). w.1)
        (prepare_all_world (logged host) q type components (reset_all (logged host) groups s)
          ∙ reset_all_world (logged host) groups s)
