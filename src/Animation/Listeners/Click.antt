-- ===== src/Animation/Listeners/Click.antt =====
-- When a listener for clicks performs its changes (src/animation/state_machine_instance.cpp).
use rive_cpp_legacy.Prelude.{
  count, ℕ, ◌≡◌, ◌≢◌, refl, sym, ap, subst, ◌∙◌, Bool, true, false, List, ◌==◌, Bool-cases, ==_iff,
  arith, contains, inl, inr, ◌&&◌,
}
use rive_cpp_legacy.Animation.Listeners.{
  ListenerType, GestureClickPhase, HitResult, Host, HitComponent,
}
use rive_cpp_legacy.Animation.Listeners.Process.{
  Position, Group, same_type, is_clicked, differ, next_phase, hover_fires, event_fires,
  process_group, reset, reset_all, prepare_all, update_listeners, in_frame,
}
use rive_cpp_legacy.Animation.Listeners.Keeps.{process_all_keeps}
use rive_cpp_legacy.Animation.Listeners.Ready.{reset_all_keeps, reset_all_gives, prepare_all_keeps}
use rive_cpp_legacy.Animation.Listeners.Logged.{ready_log, logged, Logged, log, nested_at_log}
use rive_cpp_legacy.Animation.Listeners.Turn.{
  count-other, Turned, process_group_lem, process_group_consumed, turn_hover, turn_event,
  turn_phase,
}

abbrev pub is_down : GestureClickPhase → Bool
is_down GestureClickPhase.down = true
is_down GestureClickPhase.out = false
is_down GestureClickPhase.clicked = false

-- No click can complete in an event of this type.
abbrev pub IsQuiet : ListenerType → GestureClickPhase → Type 0
IsQuiet type phase =
    (is_clicked phase ≡ false) × ((same_type type ListenerType.up && is_down phase) ≡ false)

next_phase-IsQuiet :
    (type : ListenerType) (over : Bool) (phase : GestureClickPhase)
    → IsQuiet type phase
    → IsQuiet type (next_phase type over phase)
unfolding next_phase
next_phase-IsQuiet ListenerType.enter over phase h = h
next_phase-IsQuiet ListenerType.exit over phase h = h
next_phase-IsQuiet ListenerType.down true phase h = (refl, refl)
next_phase-IsQuiet ListenerType.down false phase h = (refl, refl)
next_phase-IsQuiet ListenerType.up true GestureClickPhase.out h = h
next_phase-IsQuiet ListenerType.up true GestureClickPhase.down (h, k) = cc
next_phase-IsQuiet ListenerType.up true GestureClickPhase.clicked h = h
next_phase-IsQuiet ListenerType.up false phase h = (refl, refl)
next_phase-IsQuiet ListenerType.move over phase h = h
next_phase-IsQuiet ListenerType.event over phase h = h
next_phase-IsQuiet ListenerType.click over phase h = h

is_click :
    (type : ListenerType) → same_type type ListenerType.click ≡ true → type ≡ ListenerType.click
is_click ListenerType.enter e = cc
is_click ListenerType.exit e = cc
is_click ListenerType.down e = cc
is_click ListenerType.up e = cc
is_click ListenerType.move e = cc
is_click ListenerType.event e = cc
is_click ListenerType.click e = refl

is_up :
    (type : ListenerType) (b : Bool)
    → (same_type type ListenerType.up && b) ≡ true
    → (type ≡ ListenerType.up) × (b ≡ true)
is_up ListenerType.enter b e = cc
is_up ListenerType.exit b e = cc
is_up ListenerType.down b e = cc
is_up ListenerType.up b e = (refl, e)
is_up ListenerType.move b e = cc
is_up ListenerType.event b e = cc
is_up ListenerType.click b e = cc

pub is_down_lem :
    (phase : GestureClickPhase) → is_down phase ≡ true → phase ≡ GestureClickPhase.down
is_down_lem GestureClickPhase.out e = cc
is_down_lem GestureClickPhase.down e = refl
is_down_lem GestureClickPhase.clicked e = cc

-- The hover never lets a listener for clicks perform its changes.
pub hover_fires-click : (over changed : Bool) → hover_fires ListenerType.click over changed ≡ false
hover_fires-click over true = ground arith
hover_fires-click over false = refl

pub event_fires-click :
    (type : ListenerType) (over : Bool) (phase : GestureClickPhase)
    → type ≢ ListenerType.click
    → event_fires ListenerType.click type over phase ≡ is_clicked phase
event_fires-click type over phase ne = elim (Bool-cases (same_type type ListenerType.click)) [
  | inl same ↦ absurd (ne (is_click type same))
  | inr other ↦ ground (arith, other)
]

module _ (host : Host) where
  silent :
      (g : ℕ) (hover event hovered : Bool) (phase : GestureClickPhase) (s u : Logged host)
      → Turned host g hover event hovered phase s u
      → hover ≡ false
      → event ≡ false
      → log host u ≡ log host s
  silent g hover event hovered phase s u turned h e = rw (turned.log_is, h, e) refl

  -- A turn without a click leaves the log.
  pub turn_silent :
      (p : Position host) (type : ListenerType) (can_hit : Bool) (g : ℕ) (s : Logged host)
      → host.listener_type g ≡ ListenerType.click
      → type ≢ ListenerType.click
      → (s.groups g).is_consumed ≡ false
      → is_clicked (turn_phase host type can_hit (s.groups g)) ≡ false
      → (turn_hover host g can_hit (s.groups g) ≡ false)
        × (turn_event host g type can_hit (s.groups g) ≡ false)
        × (log host (process_group (logged host) p type can_hit g s) ≡ log host s)
  turn_silent p type can_hit g s wants ne fresh calm =
      let group = s.groups g in
      let over = can_hit && group.is_hovered in
      let changed = differ group.prev_is_hovered over in
      let phase = turn_phase host type can_hit group in
      let hover = ap (λ w. hover_fires w over changed) wants ∙ hover_fires-click over changed in
      let event =
        ap (λ w. event_fires w type over phase) wants
        ∙ event_fires-click type over phase ne
        ∙ calm in
      (
        hover,
        event,
        silent g _ _ _ _ s (process_group (logged host) p type can_hit g s)
            (process_group_lem host p type can_hit g s fresh) hover event,
      )

module _ (host : Host) (type : ListenerType) (n : ℕ) (g : ℕ) where
  abbrev StaysQuiet : Logged host → Type 0
  StaysQuiet s = (count g (log host s) ≡ n) × IsQuiet type (s.groups g).click_phase

  process_group-StaysQuiet :
      host.listener_type g ≡ ListenerType.click
      → type ≢ ListenerType.click
      → (p : Position host) (can_hit : Bool) (h : ℕ) (s : Logged host) → StaysQuiet s
      → StaysQuiet (process_group (logged host) p type can_hit h s)
  process_group-StaysQuiet wants ne p can_hit h s (e, quiet) =
      elim (Bool-cases (s.groups h).is_consumed) [
        | inl done ↦
            subst StaysQuiet (sym (process_group_consumed host p type can_hit h s done)) (e, quiet)
        | inr fresh ↦
            let turned = process_group_lem host p type can_hit h s fresh in
            elim (Bool-cases (g == h)) [
              | inl here ↦
                  let e' = (==_iff g h).0 here in
                  let fresh' = ap (λ k. (s.groups k).is_consumed) e' ∙ fresh in
                  subst (λ k. StaysQuiet (process_group (logged host) p type can_hit k s)) e'
                    (own p can_hit s fresh' (e, quiet))
              | inr other ↦ (
                count-other host h g _ _ _ _ s (process_group (logged host) p type can_hit h s)
                      other turned
                    ∙ e,
                rw (turned.others g other) quiet,
              )
            ]
      ]
    where
      own :
          (p : Position host) (can_hit : Bool) (s : Logged host)
          → (s.groups g).is_consumed ≡ false
          → StaysQuiet s
          → StaysQuiet (process_group (logged host) p type can_hit g s)
      own p can_hit s fresh (e, quiet) =
          let group = s.groups g in
          let calm =
            next_phase-IsQuiet type (can_hit && group.is_hovered) group.click_phase quiet in
          let turned = process_group_lem host p type can_hit g s fresh in
          let (hover, event, same) = turn_silent host p type can_hit g s wants ne fresh calm.0 in
          (ap (count g) same ∙ e, rw turned.phase_is calm)

module _ (host : Host) where
  abbrev KeptFrom : ListenerType → Group (logged host) → Type 0
  KeptFrom type group = (same_type type ListenerType.up && is_down group.click_phase) ≡ false

  reset_calm :
      (group : Group (logged host)) → is_clicked (reset (logged host) group).click_phase ≡ false
  unfolding reset
  reset_calm group = ground arith

  reset-KeptFrom :
      (type : ListenerType) (group : Group (logged host))
      → KeptFrom type group
      → KeptFrom type (reset (logged host) group)
  unfolding reset
  reset-KeptFrom type group h = elim (Bool-cases (is_clicked group.click_phase)) [
    | inl over ↦ rw over (and_false (same_type type ListenerType.up))
    | inr apart ↦ rw apart h
  ]
    where
      and_false : (b : Bool) → (b && false) ≡ false
      and_false true = refl
      and_false false = refl

  -- No listener for clicks performs its changes in an event that completes none.
  pub update_listeners_calm :
      (type : ListenerType)
      → type ≢ ListenerType.click
      → (groups : List ℕ) (components : List HitComponent) (p : Position host) (s : Logged host)
        (g : ℕ)
      → host.listener_type g ≡ ListenerType.click
      → contains groups g ≡ true
      → (same_type type ListenerType.up && is_down (s.groups g).click_phase) ≡ false
      → count g (log host (update_listeners (logged host) groups components type p s).1)
        ≡ count g (log host s)
  unfolding update_listeners
  update_listeners_calm type ne groups components p s g wants among apart =
      let n = count g (log host s) in
      let q = in_frame (logged host) s.world p in
      let s1 = reset_all (logged host) groups s in
      let s2 = prepare_all (logged host) q type components s1 in
      let calm =
        prepare_all_keeps (logged host) (λ k. is_clicked k.click_phase ≡ false) (λ group r. r) q
          type components g s1
          (reset_all_gives (logged host) (λ k. is_clicked k.click_phase ≡ false) reset_calm groups g
            s among) in
      let kept =
        prepare_all_keeps (logged host) (KeptFrom type) (λ group r. r) q type components g s1
          (reset_all_keeps (logged host) (KeptFrom type) (reset-KeptFrom type) groups g s apart) in
      (process_all_keeps (logged host) type (StaysQuiet host type n g) q HitResult.none components
        s2
        (λ can_hit h u listed quiet.
          process_group-StaysQuiet host type n g wants ne q can_hit h u quiet)
        (λ can_hit component o u (e, quiet).
          (rw (nested_at_log host type can_hit component o u.world) e, quiet))
        (ap (count g) (ready_log host groups components type q s), (calm, kept))).0

  -- A listener for clicks performs its changes only in the event of a release, and only when its
  -- group was pressed before. The type of the event is not `click`, which no event of the pointer
  -- has.
  pub update_listeners-click :
      (type : ListenerType)
      → type ≢ ListenerType.click
      → (groups : List ℕ) (components : List HitComponent) (p : Position host) (s : Logged host)
        (g : ℕ)
      → host.listener_type g ≡ ListenerType.click
      → contains groups g ≡ true
      → count g (log host (update_listeners (logged host) groups components type p s).1)
        ≢ count g (log host s)
      → (type ≡ ListenerType.up) × ((s.groups g).click_phase ≡ GestureClickPhase.down)
  update_listeners-click type ne groups components p s g wants among performed =
      elim (Bool-cases (same_type type ListenerType.up && is_down (s.groups g).click_phase)) [
        | inl pressed ↦
            let (release, was) = is_up type (is_down (s.groups g).click_phase) pressed in
            (release, is_down_lem (s.groups g).click_phase was)
        | inr apart ↦
            absurd
              (performed (update_listeners_calm type ne groups components p s g wants among apart))
      ]
