-- ===== src/Animation/Listeners/Turn.antt =====
-- One turn of a ListenerGroup (src/animation/state_machine_instance.cpp), over the host that writes
-- down which listeners perform their changes.
use rive_cpp_legacy.Prelude.{
  count, ℕ, ◌≤◌, ◌≡◌, refl, sym, ap, subst, ◌∙◌, Bool, true, false, not, List, ◌∷◌, ◌==◌,
  Bool-cases, ==_iff, arith, inl, inr, ◌||◌, ◌&&◌, if◌then◌else◌,
}
use rive_cpp_legacy.Animation.Listeners.{ListenerType, GestureClickPhase, Host}
use rive_cpp_legacy.Animation.Listeners.Process.{
  Position, set_group, differ, hover_fires, event_fires, next_phase, perform, perform_if, fire,
  process_group,
}
use rive_cpp_legacy.Animation.Listeners.Logged.{logged, Logged, LoggedGroup, log}

module _ (host : Host) where
  -- What a turn of `g` with these two outcomes leaves.
  pub record Turned (g : ℕ) (hover event hovered : Bool) (phase : GestureClickPhase)
      (s u : Logged host) : Type 0 where
    pub consumed : (u.groups g).is_consumed ≡ (event || (hover || false))
    pub hovered_is : (u.groups g).is_hovered ≡ hovered
    pub phase_is : (u.groups g).click_phase ≡ phase
    pub log_is : log host u ≡ (
        if event
        then g ∷ (if hover then g ∷ log host s else log host s)
        else (if hover then g ∷ log host s else log host s))
    pub others : (o : ℕ) → (o == g) ≡ false → u.groups o ≡ s.groups o

  set_group_eq :
      (g : ℕ) (group : LoggedGroup host) (s : Logged host)
      → (set_group (logged host) g group s).groups g ≡ group
  set_group_eq g group s = rw ((==_iff g g).1 refl) refl

  set_group_ne :
      (g o : ℕ) (group : LoggedGroup host) (s : Logged host)
      → (o == g) ≡ false
      → (set_group (logged host) g group s).groups o ≡ s.groups o
  set_group_ne g o group s e = rw e refl

  pub record Performed (g : ℕ) (fires : Bool) (s u : Logged host) : Type 0 where
    pub p_consumed : (u.groups g).is_consumed ≡ (fires || (s.groups g).is_consumed)
    pub p_hovered : (u.groups g).is_hovered ≡ (s.groups g).is_hovered
    pub p_phase : (u.groups g).click_phase ≡ (s.groups g).click_phase
    pub p_log : log host u ≡ (if fires then g ∷ log host s else log host s)
    pub p_others : (o : ℕ) → (o == g) ≡ false → u.groups o ≡ s.groups o

  perform_if_lem :
      (fires : Bool) (p : Position host) (g : ℕ) (s : Logged host)
      → Performed g fires s (perform_if (logged host) fires p g s)
  unfolding perform
  perform_if_lem true p g s =
      let back = set_group_eq g (record (s.groups g) { is_consumed = true }) s in
      record {
        p_consumed = ap (λ (k : LoggedGroup host). k.is_consumed) back;
        p_hovered = ap (λ (k : LoggedGroup host). k.is_hovered) back;
        p_phase = ap (λ (k : LoggedGroup host). k.click_phase) back;
        p_log = refl;
        p_others = λ o e. set_group_ne g o (record (s.groups g) { is_consumed = true }) s e;
      }
  perform_if_lem false p g s = record {
    p_consumed = refl;
    p_hovered = refl;
    p_phase = refl;
    p_log = refl;
    p_others = λ o e. refl;
  }

  placed_consumed :
      (b : Bool) (p : Position host) (group : LoggedGroup host)
      → (if b then (record group { previous_position = p }) else group).is_consumed
        ≡ group.is_consumed
  placed_consumed true p group = refl
  placed_consumed false p group = refl

  placed_hovered :
      (b : Bool) (p : Position host) (group : LoggedGroup host)
      → (if b then (record group { previous_position = p }) else group).is_hovered
        ≡ group.is_hovered
  placed_hovered true p group = refl
  placed_hovered false p group = refl

  pub fire_lem :
      (p : Position host) (type : ListenerType) (g : ℕ) (over : Bool) (group : LoggedGroup host)
      (s : Logged host)
      → group.is_consumed ≡ false
      → Turned g
          (hover_fires (host.listener_type g) over (differ group.prev_is_hovered over))
          (event_fires (host.listener_type g) type over (next_phase type over group.click_phase))
          group.is_hovered
          (next_phase type over group.click_phase)
          s
          (fire (logged host) p type g over group s)
  unfolding fire
  fire_lem p type g over group s fresh =
      let changed = differ group.prev_is_hovered over in
      let phase = next_phase type over group.click_phase in
      let placed = if changed && over then (record group { previous_position = p }) else group in
      let start = record placed { click_phase = phase } in
      let s1 = set_group (logged host) g start s in
      let hover = hover_fires (host.listener_type g) over changed in
      let event = event_fires (host.listener_type g) type over phase in
      let s2 = perform_if (logged host) hover p g s1 in
      let s3 = perform_if (logged host) event p g s2 in
      let last = record (s3.groups g) { previous_position = p } in
      let first = set_group_eq g start s in
      let back = set_group_eq g last s3 in
      let a = perform_if_lem hover p g s1 in
      let b = perform_if_lem event p g s2 in
      record {
        consumed =
            ap (λ (k : LoggedGroup host). k.is_consumed) back
            ∙ b.p_consumed
            ∙ ap (λ c. event || c)
                (a.p_consumed
                  ∙ ap (λ c. hover || c)
                      (ap (λ (k : LoggedGroup host). k.is_consumed) first
                        ∙ placed_consumed (changed && over) p group
                        ∙ fresh));
        hovered_is =
            ap (λ (k : LoggedGroup host). k.is_hovered) back
            ∙ b.p_hovered
            ∙ a.p_hovered
            ∙ ap (λ (k : LoggedGroup host). k.is_hovered) first
            ∙ placed_hovered (changed && over) p group;
        phase_is =
            ap (λ (k : LoggedGroup host). k.click_phase) back
            ∙ b.p_phase
            ∙ a.p_phase
            ∙ ap (λ (k : LoggedGroup host). k.click_phase) first;
        log_is = b.p_log ∙ ap (λ l. if event then g ∷ l else l) a.p_log;
        others = λ o e.
            set_group_ne g o last s3 e
            ∙ b.p_others o e
            ∙ a.p_others o e
            ∙ set_group_ne g o start s e;
      }

  abbrev pub turn_phase : ListenerType → Bool → LoggedGroup host → GestureClickPhase
  turn_phase type can_hit group = next_phase type (can_hit && group.is_hovered) group.click_phase

  abbrev pub turn_hover : ℕ → Bool → LoggedGroup host → Bool
  turn_hover g can_hit group =
      hover_fires (host.listener_type g) (can_hit && group.is_hovered)
        (differ group.prev_is_hovered (can_hit && group.is_hovered))

  abbrev pub turn_event : ℕ → ListenerType → Bool → LoggedGroup host → Bool
  turn_event g type can_hit group =
      event_fires (host.listener_type g) type (can_hit && group.is_hovered)
        (turn_phase type can_hit group)

  settled_lem :
      (p : Position host) (type : ListenerType) (g : ℕ) (over unhover : Bool)
      (group : LoggedGroup host) (s : Logged host)
      → group.is_consumed ≡ false
      → Turned g
          (hover_fires (host.listener_type g) over (differ group.prev_is_hovered over))
          (event_fires (host.listener_type g) type over (next_phase type over group.click_phase))
          (if unhover then false else group.is_hovered)
          (next_phase type over group.click_phase)
          s
          (fire
            (logged host)
            p
            type
            g
            over
            (if unhover then (record group { is_hovered = false }) else group)
            s)
  settled_lem p type g over true group s fresh =
      fire_lem p type g over (record group { is_hovered = false }) s fresh
  settled_lem p type g over false group s fresh = fire_lem p type g over group s fresh

  process_group-fire :
      (p : Position host) (type : ListenerType) (can_hit : Bool) (g : ℕ) (s : Logged host)
      → (s.groups g).is_consumed ≡ false
      → process_group (logged host) p type can_hit g s
        ≡ fire
            (logged host)
            p
            type
            g
            (can_hit && (s.groups g).is_hovered)
            (if not can_hit && (s.groups g).is_hovered
              then (record (s.groups g) { is_hovered = false })
              else s.groups g)
            s
  unfolding process_group
  process_group-fire p type can_hit g s fresh =
      ap
        (λ b.
          if b
          then s
          else fire (logged host) p type g (can_hit && (s.groups g).is_hovered)
              (if not can_hit && (s.groups g).is_hovered
                then (record (s.groups g) { is_hovered = false })
                else s.groups g)
              s)
        fresh

  pub process_group_lem :
      (p : Position host) (type : ListenerType) (can_hit : Bool) (g : ℕ) (s : Logged host)
      → (s.groups g).is_consumed ≡ false
      → Turned g
          (turn_hover g can_hit (s.groups g))
          (turn_event g type can_hit (s.groups g))
          (if not can_hit && (s.groups g).is_hovered then false else (s.groups g).is_hovered)
          (turn_phase type can_hit (s.groups g))
          s
          (process_group (logged host) p type can_hit g s)
  process_group_lem p type can_hit g s fresh =
      subst
        (Turned g (turn_hover g can_hit (s.groups g)) (turn_event g type can_hit (s.groups g))
          (if not can_hit && (s.groups g).is_hovered then false else (s.groups g).is_hovered)
          (turn_phase type can_hit (s.groups g)) s)
        (sym (process_group-fire p type can_hit g s fresh))
        (settled_lem p type g (can_hit && (s.groups g).is_hovered)
          (not can_hit && (s.groups g).is_hovered) (s.groups g) s fresh)

  pub process_group_consumed :
      (p : Position host) (type : ListenerType) (can_hit : Bool) (g : ℕ) (s : Logged host)
      → (s.groups g).is_consumed ≡ true
      → process_group (logged host) p type can_hit g s ≡ s
  unfolding process_group
  process_group_consumed p type can_hit g s done = rw done refl

  -- A turn of another group, and any turn.
  pub count-other :
      (g o : ℕ) (hover event hovered : Bool) (phase : GestureClickPhase) (s u : Logged host)
      → (o == g) ≡ false
      → Turned g hover event hovered phase s u
      → count o (log host u) ≡ count o (log host s)
  count-other g o true true hovered phase s u e turned = rw (turned.log_is, e) refl
  count-other g o true false hovered phase s u e turned = rw (turned.log_is, e) refl
  count-other g o false true hovered phase s u e turned = rw (turned.log_is, e) refl
  count-other g o false false hovered phase s u e turned = ap (count o) turned.log_is

  count-cons : (o g : ℕ) (hs : List ℕ) → count o hs ≤ count o (g ∷ hs)
  count-cons o g hs = ground arith

  pub count-grows :
      (p : Position host) (type : ListenerType) (can_hit : Bool) (o g : ℕ) (s : Logged host)
      → count o (log host s) ≤ count o (log host (process_group (logged host) p type can_hit g s))
  count-grows p type can_hit o g s = elim (Bool-cases (s.groups g).is_consumed) [
    | inl done ↦ rw (process_group_consumed p type can_hit g s done) (omega arith)
    | inr fresh ↦
        rw (process_group_lem p type can_hit g s fresh).log_is
          (grows (turn_hover g can_hit (s.groups g)) (turn_event g type can_hit (s.groups g)))
  ]
    where
      grows :
          (hover event : Bool)
          → count o (log host s)
            ≤ count o (
                if event
                then g ∷ (if hover then g ∷ log host s else log host s)
                else (if hover then g ∷ log host s else log host s))
      grows true true = omega (arith, count-cons o g (log host s), count-cons o g (g ∷ log host s))
      grows true false = count-cons o g (log host s)
      grows false true = count-cons o g (log host s)
      grows false false = omega arith
