-- ===== src/Animation/Listeners/Press.antt =====
-- A press and a release over a shape (src/animation/state_machine_instance.cpp).
use rive_cpp_legacy.Prelude.{
  count, ℕ, ◌≤◌, ◌≡◌, ◌≢◌, refl, sym, ap, subst, ◌∙◌, Bool, true, false, List, [], ◌∷◌, ◌++◌, ◌==◌,
  Bool-cases, ==_iff, arith, contains, inl, inr,
}
use rive_cpp_legacy.Animation.Listeners.{
  ListenerType, GestureClickPhase, Host, HitShape, HitComponent, hit_shape,
}
use rive_cpp_legacy.Animation.Listeners.Process.{
  Position, Group, is_clicked, next_phase, process_group, process_groups, reset, reset_all,
  prepare_all, early_out, hit_test,
}
use rive_cpp_legacy.Animation.Listeners.Ready.{
  reset_all_gives, prepare_all_keeps, prepare_all_gives, reset_all_world,
}
use rive_cpp_legacy.Animation.Listeners.Logged.{logged, Logged, log}
use rive_cpp_legacy.Animation.Listeners.Turn.{
  count-grows, process_group_lem, process_group_consumed, turn_phase,
}
use rive_cpp_legacy.Animation.Listeners.Click.{is_down, turn_silent}

module _ (host : Host) (g : ℕ) where
  -- The group is hovered, and not yet consumed.
  abbrev pub IsHeld : Logged host → Type 0
  IsHeld s = ((s.groups g).is_hovered ≡ true) × ((s.groups g).is_consumed ≡ false)

  abbrev pub IsPressed : Logged host → Type 0
  IsPressed s = is_down (s.groups g).click_phase ≡ true

  -- A turn of this group, with what becomes of another one's.
  pub by_turn :
      (P : Logged host → Type 0) (p : Position host) (type : ListenerType) (can_hit : Bool) (h : ℕ)
      (s : Logged host)
      → P s
      → ((g == h) ≡ true
          → (s.groups g).is_consumed ≡ false
          → P (process_group (logged host) p type can_hit g s))
      → ((u : Logged host)
          → u.groups g ≡ s.groups g
          → count g (log host s) ≤ count g (log host u)
          → P u)
      → P (process_group (logged host) p type can_hit h s)
  by_turn P p type can_hit h s start own other = elim (Bool-cases (s.groups h).is_consumed) [
    | inl done ↦ subst P (sym (process_group_consumed host p type can_hit h s done)) start
    | inr fresh ↦ elim (Bool-cases (g == h)) [
      | inl here ↦
          let e = (==_iff g h).0 here in
          subst (λ k. P (process_group (logged host) p type can_hit k s)) e
            (own here (ap (λ k. (s.groups k).is_consumed) e ∙ fresh))
      | inr away ↦
          let u = process_group (logged host) p type can_hit h s in
          other u ((process_group_lem host p type can_hit h s fresh).others g away)
            (count-grows host p type can_hit g h s)
    ]
  ]

  module _ (wants : host.listener_type g ≡ ListenerType.click) where
    down_apart : ListenerType.down ≢ ListenerType.click
    down_apart e = cc

    press_own :
        (p : Position host) (s : Logged host)
        → IsHeld s
        → IsHeld (process_group (logged host) p ListenerType.down true g s)
          × IsPressed (process_group (logged host) p ListenerType.down true g s)
    unfolding next_phase
    press_own p s (hovered, fresh) =
        let type = ListenerType.down in
        let turned = process_group_lem host p type true g s fresh in
        let pressed : turn_phase host type true (s.groups g) ≡ GestureClickPhase.down =
          ap (λ b. next_phase type b (s.groups g).click_phase) hovered in
        let (hover, event, same) =
          turn_silent host p type true g s wants down_apart fresh (ap is_clicked pressed) in
        (
          (turned.hovered_is ∙ hovered, turned.consumed ∙ rw (event, hover) refl),
          ap is_down (turned.phase_is ∙ pressed),
        )

    pub press_turn :
        (p : Position host) (h : ℕ) (s : Logged host)
        → IsHeld s
        → IsHeld (process_group (logged host) p ListenerType.down true h s)
    press_turn p h s held =
        by_turn IsHeld p ListenerType.down true h s held (λ here fresh. (press_own p s held).0)
          (λ u e more. rw e held)

    press_stays :
        (p : Position host) (h : ℕ) (s : Logged host)
        → IsHeld s
        → IsPressed s
        → IsPressed (process_group (logged host) p ListenerType.down true h s)
    press_stays p h s held pressed =
        by_turn IsPressed p ListenerType.down true h s pressed
          (λ here fresh. (press_own p s held).1) (λ u e more. rw e pressed)

    press_groups_stay :
        (p : Position host) (gs : List ℕ) (s : Logged host)
        → IsHeld s
        → IsPressed s
        → IsPressed (process_groups (logged host) p ListenerType.down true gs s)
    unfolding process_groups
    press_groups_stay p [] s held pressed = pressed
    press_groups_stay p (h ∷ gs) s held pressed =
        press_groups_stay p gs (process_group (logged host) p ListenerType.down true h s)
          (press_turn p h s held) (press_stays p h s held pressed)

    -- The turns of a shape's groups press this one.
    pub press_groups :
        (p : Position host) (gs : List ℕ) (s : Logged host)
        → contains gs g ≡ true
        → IsHeld s
        → IsPressed (process_groups (logged host) p ListenerType.down true gs s)
    unfolding process_groups
    press_groups p [] s among held = absurd (false_ne_true among)
      where
        false_ne_true : false ≢ true
        false_ne_true e = cc
    press_groups p (h ∷ gs) s among held = elim (Bool-cases (g == h)) [
      | inl here ↦
          press_groups_stay p gs (process_group (logged host) p ListenerType.down true h s)
            (press_turn p h s held)
            (subst (λ k. IsPressed (process_group (logged host) p ListenerType.down true k s))
              ((==_iff g h).0 here) (press_own p s held).1)
      | inr away ↦
          press_groups p gs (process_group (logged host) p ListenerType.down true h s)
            (ground (arith, among, away)) (press_turn p h s held)
    ]

  -- The group when a shape's event begins.
  pub ready-IsHeld :
      (groups : List ℕ) (before after : List HitComponent) (shape : HitShape) (type : ListenerType)
      (q : Position host) (s : Logged host)
      → contains groups g ≡ true
      → contains shape.listeners g ≡ true
      → early_out shape type ≡ false
      → hit_test (logged host) shape.component q s.world ≡ true
      → IsHeld (
          prepare_all
            (logged host)
            q
            type
            (before ++ hit_shape shape ∷ after)
            (reset_all (logged host) groups s))
  unfolding reset
  ready-IsHeld groups before after shape type q s known among in_time over =
      let s1 = reset_all (logged host) groups s in
      (
        prepare_all_gives (logged host) q type before after shape g s1 in_time
            (ap (hit_test (logged host) shape.component q) (reset_all_world (logged host) groups s)
              ∙ over)
            among,
        prepare_all_keeps (logged host) (λ k. k.is_consumed ≡ false) (λ group r. r) q type
            (before ++ hit_shape shape ∷ after) g s1
            (reset_all_gives (logged host) (λ k. k.is_consumed ≡ false) reset_fresh groups g s
              known),
      )
    where
      reset_fresh : (group : Group (logged host)) → (reset (logged host) group).is_consumed ≡ false
      reset_fresh group = refl

  -- No group of a list is this one.
  pub apart_in :
      (gs : List ℕ) (h : ℕ) → contains gs g ≡ false → contains gs h ≡ true → (g == h) ≡ false
  apart_in gs h without among = elim (Bool-cases (g == h)) [
    | inl here ↦
        absurd (false_ne_true (sym without ∙ ap (contains gs) ((==_iff g h).0 here) ∙ among))
    | inr away ↦ away
  ]
    where
      false_ne_true : false ≢ true
      false_ne_true e = cc
