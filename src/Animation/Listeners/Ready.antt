-- ===== src/Animation/Listeners/Ready.antt =====
-- What updateListeners does before it processes an event: `reset` and prepareEvent
-- (src/animation/state_machine_instance.cpp).
use rive_cpp_legacy.Prelude.{
  ℕ, ◌≡◌, ◌≢◌, refl, ap, subst, ◌∙◌, true, false, List, [], ◌∷◌, ◌++◌, ◌==◌, Bool-cases, ==_iff,
  arith, contains, inl, inr,
}
use rive_cpp_legacy.Animation.Listeners.{
  ListenerType, Host, HitComponent, HitShape, hit_shape, hit_nested_artboard, State,
}
use rive_cpp_legacy.Animation.Listeners.Process.{
  Position, Group, set_group, reset, reset_all, hover_all, prepare_event, prepare_all, early_out,
  hit_test,
}

module _ (host : Host) where
  pub reset_all_world : (gs : List ℕ) (s : State host) → (reset_all host gs s).world ≡ s.world
  unfolding reset_all
  reset_all_world [] s = refl
  reset_all_world (g ∷ gs) s = reset_all_world gs (set_group host g (reset host (s.groups g)) s)

  hover_all_world : (gs : List ℕ) (s : State host) → (hover_all host gs s).world ≡ s.world
  unfolding hover_all
  hover_all_world [] s = refl
  hover_all_world (g ∷ gs) s =
      hover_all_world gs (set_group host g (record (s.groups g) { is_hovered = true }) s)

  pub prepare_event_world :
      (p : Position host) (type : ListenerType) (c : HitComponent) (s : State host)
      → (prepare_event host p type c s).world ≡ s.world
  unfolding prepare_event
  prepare_event_world p type (hit_nested_artboard component) s = refl
  prepare_event_world p type (hit_shape shape) s = elim (Bool-cases (early_out shape type)) [
    | inl out ↦ rw out refl
    | inr in_time ↦ elim (Bool-cases (hit_test host shape.component p s.world)) [
      | inl over ↦ rw (in_time, over) (hover_all_world shape.listeners _)
      | inr off ↦ rw (in_time, off) refl
    ]
  ]

  pub prepare_all_world :
      (p : Position host) (type : ListenerType) (cs : List HitComponent) (s : State host)
      → (prepare_all host p type cs s).world ≡ s.world
  unfolding prepare_all
  prepare_all_world p type [] s = refl
  prepare_all_world p type (c ∷ cs) s =
      prepare_all_world p type cs (prepare_event host p type c s) ∙ prepare_event_world p type c s

  module _ (R : Group host → Type 0) where
    set_group_keeps :
        (g h : ℕ) (group : Group host) (s : State host)
        → (R (s.groups g) → R group)
        → R (s.groups h)
        → R ((set_group host g group s).groups h)
    set_group_keeps g h group s step r = elim (Bool-cases (h == g)) [
      | inl here ↦ rw here (step (subst (λ k. R (s.groups k)) ((==_iff h g).0 here) r))
      | inr other ↦ rw other r
    ]

    pub reset_all_keeps :
        ((group : Group host) → R group → R (reset host group))
        → (gs : List ℕ) (g : ℕ) (s : State host) → R (s.groups g)
        → R ((reset_all host gs s).groups g)
    unfolding reset_all
    reset_all_keeps step [] g s r = r
    reset_all_keeps step (h ∷ gs) g s r =
        reset_all_keeps step gs g (set_group host h (reset host (s.groups h)) s)
          (set_group_keeps h g (reset host (s.groups h)) s (step (s.groups h)) r)

    -- What holds of every group that was reset, holds of those in the list.
    pub reset_all_gives :
        ((group : Group host) → R (reset host group))
        → (gs : List ℕ) (g : ℕ) (s : State host) → contains gs g ≡ true
        → R ((reset_all host gs s).groups g)
    unfolding reset_all
    reset_all_gives made [] g s e = absurd (false_ne_true e)
      where
        false_ne_true : false ≢ true
        false_ne_true e = cc
    reset_all_gives made (h ∷ gs) g s e = elim (Bool-cases (g == h)) [
      | inl here ↦
          reset_all_keeps (λ group r. made group) gs g
            (set_group host h (reset host (s.groups h)) s) (rw here (made (s.groups h)))
      | inr other ↦
          reset_all_gives made gs g (set_group host h (reset host (s.groups h)) s)
            (ground (arith, e, other))
    ]

    hover_all_keeps :
        ((group : Group host) → R group → R (record group { is_hovered = true }))
        → (gs : List ℕ) (g : ℕ) (s : State host) → R (s.groups g)
        → R ((hover_all host gs s).groups g)
    unfolding hover_all
    hover_all_keeps step [] g s r = r
    hover_all_keeps step (h ∷ gs) g s r =
        hover_all_keeps step gs g (set_group host h (record (s.groups h) { is_hovered = true }) s)
          (set_group_keeps h g (record (s.groups h) { is_hovered = true }) s (step (s.groups h)) r)

    pub prepare_event_keeps :
        ((group : Group host) → R group → R (record group { is_hovered = true }))
        → (p : Position host) (type : ListenerType) (c : HitComponent) (g : ℕ) (s : State host)
        → R (s.groups g)
        → R ((prepare_event host p type c s).groups g)
    unfolding prepare_event
    prepare_event_keeps step p type (hit_nested_artboard component) g s r = r
    prepare_event_keeps step p type (hit_shape shape) g s r =
        elim (Bool-cases (early_out shape type)) [
          | inl out ↦ rw out r
          | inr in_time ↦ elim (Bool-cases (hit_test host shape.component p s.world)) [
            | inl over ↦ rw (in_time, over) (hover_all_keeps step shape.listeners g _ r)
            | inr off ↦ rw (in_time, off) r
          ]
        ]

    pub prepare_all_keeps :
        ((group : Group host) → R group → R (record group { is_hovered = true }))
        → (p : Position host) (type : ListenerType) (cs : List HitComponent) (g : ℕ)
          (s : State host)
        → R (s.groups g)
        → R ((prepare_all host p type cs s).groups g)
    unfolding prepare_all
    prepare_all_keeps step p type [] g s r = r
    prepare_all_keeps step p type (c ∷ cs) g s r =
        prepare_all_keeps step p type cs g (prepare_event host p type c s)
          (prepare_event_keeps step p type c g s r)

  -- Every group of a list is hovered afterwards.
  hover_all_gives :
      (gs : List ℕ) (g : ℕ) (s : State host)
      → contains gs g ≡ true
      → ((hover_all host gs s).groups g).is_hovered ≡ true
  unfolding hover_all
  hover_all_gives [] g s e = absurd (false_ne_true e)
    where
      false_ne_true : false ≢ true
      false_ne_true e = cc
  hover_all_gives (h ∷ gs) g s e = elim (Bool-cases (g == h)) [
    | inl here ↦
        hover_all_keeps (λ k. k.is_hovered ≡ true) (λ group r. refl) gs g
          (set_group host h (record (s.groups h) { is_hovered = true }) s) (rw here refl)
    | inr other ↦
        hover_all_gives gs g (set_group host h (record (s.groups h) { is_hovered = true }) s)
          (ground (arith, e, other))
  ]

  pub prepare_event_gives :
      (p : Position host) (type : ListenerType) (shape : HitShape) (g : ℕ) (s : State host)
      → early_out shape type ≡ false
      → hit_test host shape.component p s.world ≡ true
      → contains shape.listeners g ≡ true
      → ((prepare_event host p type (hit_shape shape) s).groups g).is_hovered ≡ true
  unfolding prepare_event
  prepare_event_gives p type shape g s in_time over e =
      rw (in_time, over) (hover_all_gives shape.listeners g _ e)

  -- A group is hovered once one of its shapes is.
  pub prepare_all_gives :
      (p : Position host) (type : ListenerType) (before after : List HitComponent)
      (shape : HitShape) (g : ℕ) (s : State host)
      → early_out shape type ≡ false
      → hit_test host shape.component p s.world ≡ true
      → contains shape.listeners g ≡ true
      → ((prepare_all host p type (before ++ hit_shape shape ∷ after) s).groups g).is_hovered ≡ true
  unfolding prepare_all
  prepare_all_gives p type [] after shape g s in_time over e =
      prepare_all_keeps (λ k. k.is_hovered ≡ true) (λ group r. refl) p type after g
        (prepare_event host p type (hit_shape shape) s)
        (prepare_event_gives p type shape g s in_time over e)
  prepare_all_gives p type (c ∷ before) after shape g s in_time over e =
      prepare_all_gives p type before after shape g (prepare_event host p type c s) in_time
        (ap (hit_test host shape.component p) (prepare_event_world p type c s) ∙ over) e
