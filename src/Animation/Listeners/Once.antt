-- ===== src/Animation/Listeners/Once.antt =====
-- How often a listener performs its changes in one event of the pointer
-- (src/animation/state_machine_instance.cpp).
use rive_cpp_legacy.Prelude.{
  count, ℕ, suc, ◌+◌, ◌≤◌, ◌≡◌, ◌≢◌, refl, sym, subst, Bool, true, false, List, ◌==◌, Bool-cases,
  ==_iff, arith, inl, inr, if◌then◌else◌,
}
use rive_cpp_legacy.Animation.Listeners.{
  ListenerType, GestureClickPhase, HitResult, Host, HitComponent,
}
use rive_cpp_legacy.Animation.Listeners.Process.{
  Position, same_type, hover_fires, event_fires, process_group, reset_all, prepare_all,
  update_listeners, in_frame,
}
use rive_cpp_legacy.Animation.Listeners.Keeps.{process_all_keeps}
use rive_cpp_legacy.Animation.Listeners.Logged.{ready_log, logged, Logged, log, nested_at_log}
use rive_cpp_legacy.Animation.Listeners.Turn.{
  count-other, Turned, process_group_lem, process_group_consumed,
}

is_enter :
    (type : ListenerType) → same_type type ListenerType.enter ≡ true → type ≡ ListenerType.enter
is_enter ListenerType.enter e = refl
is_enter ListenerType.exit e = cc
is_enter ListenerType.down e = cc
is_enter ListenerType.up e = cc
is_enter ListenerType.move e = cc
is_enter ListenerType.event e = cc
is_enter ListenerType.click e = cc

exclusive :
    (wanted type : ListenerType) (over changed : Bool) (phase : GestureClickPhase)
    → type ≢ ListenerType.enter
    → hover_fires wanted over changed ≡ true
    → event_fires wanted type over phase ≡ false
exclusive ListenerType.enter type over changed phase ne h =
    elim (Bool-cases (same_type type ListenerType.enter)) [
      | inl same ↦ absurd (ne (is_enter type same))
      | inr other ↦ ground (arith, h, other)
    ]
exclusive ListenerType.exit type over changed phase ne h = ground (arith, h)
exclusive ListenerType.down type over changed phase ne h = ground (arith, h)
exclusive ListenerType.up type over changed phase ne h = ground (arith, h)
exclusive ListenerType.move type over changed phase ne h = ground (arith, h)
exclusive ListenerType.event type over changed phase ne h = ground (arith, h)
exclusive ListenerType.click type over changed phase ne h = ground (arith, h)

module _ (host : Host) (n : ℕ) where
  -- Not yet written down and not consumed, or written down at most once.
  abbrev IsOnce : ℕ → Logged host → Type 0
  IsOnce g s = count g (log host s) + (if (s.groups g).is_consumed then 0 else 1) ≤ suc n

  turn-IsOnce :
      (g : ℕ) (hover event hovered : Bool) (phase : GestureClickPhase) (s u : Logged host)
      → (s.groups g).is_consumed ≡ false
      → (hover ≡ true → event ≡ false)
      → Turned host g hover event hovered phase s u
      → IsOnce g s
      → IsOnce g u
  turn-IsOnce g true true hovered phase s u fresh apart turned h =
      absurd (true_ne_false (apart refl))
    where
      true_ne_false : true ≢ false
      true_ne_false e = cc
  turn-IsOnce g true false hovered phase s u fresh apart turned h =
      rw (turned.log_is, turned.consumed, (==_iff g g).1 refl) (omega (arith, rw fresh at h))
  turn-IsOnce g false true hovered phase s u fresh apart turned h =
      rw (turned.log_is, turned.consumed, (==_iff g g).1 refl) (omega (arith, rw fresh at h))
  turn-IsOnce g false false hovered phase s u fresh apart turned h =
      rw (turned.log_is, turned.consumed) (rw fresh at h)

  turn_other-IsOnce :
      (g o : ℕ) (hover event hovered : Bool) (phase : GestureClickPhase) (s u : Logged host)
      → (o == g) ≡ false
      → Turned host g hover event hovered phase s u
      → IsOnce o s
      → IsOnce o u
  turn_other-IsOnce g o hover event hovered phase s u e turned h =
      rw (count-other host g o hover event hovered phase s u e turned, turned.others o e) h

  process_group-IsOnce :
      (type : ListenerType)
      → type ≢ ListenerType.enter
      → (o : ℕ) (p : Position host) (can_hit : Bool) (g : ℕ) (s : Logged host) → IsOnce o s
      → IsOnce o (process_group (logged host) p type can_hit g s)
  process_group-IsOnce type ne o p can_hit g s h = elim (Bool-cases (s.groups g).is_consumed) [
    | inl done ↦ subst (IsOnce o) (sym (process_group_consumed host p type can_hit g s done)) h
    | inr fresh ↦
        let turned = process_group_lem host p type can_hit g s fresh in
        elim (Bool-cases (o == g)) [
          | inl here ↦
              let e = (==_iff o g).0 here in
              let u = process_group (logged host) p type can_hit g s in
              subst (λ k. IsOnce k u) (sym e)
                (turn-IsOnce g _ _ _ _ s u fresh (exclusive (host.listener_type g) type _ _ _ ne)
                  turned (subst (λ k. IsOnce k s) e h))
          | inr other ↦
              turn_other-IsOnce g o _ _ _ _ s (process_group (logged host) p type can_hit g s) other
                turned h
        ]
  ]

module _ (host : Host) where
  -- No event of the pointer lets a listener perform its changes more than once, however many shapes
  -- share its group. The type of the event is not `enter`, which no event of the pointer has.
  pub update_listeners-once :
      (type : ListenerType)
      → type ≢ ListenerType.enter
      → (groups : List ℕ) (components : List HitComponent) (p : Position host) (s : Logged host)
        (g : ℕ)
      → count g (log host (update_listeners (logged host) groups components type p s).1)
        ≤ suc (count g (log host s))
  unfolding update_listeners
  update_listeners-once type ne groups components p s g =
      let n = count g (log host s) in
      let q = in_frame (logged host) s.world p in
      let s1 = reset_all (logged host) groups s in
      let s2 = prepare_all (logged host) q type components s1 in
      let e : log host s2 ≡ log host s = ready_log host groups components type q s in
      let start : IsOnce host n g s2 = rw e (bound n (s2.groups g).is_consumed) in
      let end =
        process_all_keeps (logged host) type (IsOnce host n g) q HitResult.none components s2
          (λ can_hit h u among once. process_group-IsOnce host n type ne g q can_hit h u once)
          (λ can_hit component o u once.
            rw (nested_at_log host type can_hit component o u.world) once)
          start in
      omega (arith, end)
    where
      bound : (n : ℕ) (b : Bool) → n + (if b then 0 else 1) ≤ suc n
      bound n true = omega arith
      bound n false = omega arith
