-- ===== src/Animation/Layer/State.antt =====
-- StateMachineLayerInstance (src/animation/state_machine_instance.cpp): its members, and how it
-- takes a transition.
-- `World` stands for the objects that it shares with others. AnimationResetFactory::release only
-- gives a cleared object back to its pool, and is left out.
use rive_cpp_legacy.Prelude.{
  ℕ, Bool, true, false, not, ◌&&◌, List, [], ◌∷◌, Option, none, some, if◌then◌else◌, ◌==◌,
}
use rive_cpp_legacy.Animation.Layer.{
  Occurs, FireEvent, Transition, LayerState, pause_on_exit, has_flag, Machine,
}
use rive_cpp_legacy.Animation.Layer.Transitions.{mix_time, apply_exit_condition, is_animation_state}
use rive_cpp_legacy.Animation.Layer.Choice.{same_state, find_allowed_transition}

abbrev same_occurs : Occurs → Occurs → Bool
same_occurs Occurs.at_start Occurs.at_start = true
same_occurs Occurs.at_start Occurs.at_end = false
same_occurs Occurs.at_end Occurs.at_start = false
same_occurs Occurs.at_end Occurs.at_end = true

module _ (machine : Machine) where
  open machine use {
    Float, World, Inst, Reset, of_ℕ, add, div, lt, eq, make_instance, advance_instance,
    apply_instance, keep_going, clear_spilled_time, spilled_time, time, animation_of,
    apply_animation, perform, transform, from_states, apply_reset,
  }

  abbrev pub StateInstance : Type 0
  StateInstance = ℕ × Inst

  pub record Layer : Type 0 where
    pub any_state : StateInstance
    pub current : Option StateInstance
    pub state_from : Option StateInstance
    pub transition : Option Transition
    pub animation_reset : Option Reset
    pub transition_completed : Bool
    pub hold_animation_from : Bool
    pub mix : Float
    pub mix_from : Float
    pub changed : Bool
    pub waiting_for_exit : Bool
    pub hold_animation : Option (ℕ × Float)
    pub world : World

  abbrev pub state_of : Option StateInstance → Option ℕ
  state_of none = none
  state_of (some (state, inst)) = some state

  unfoldable pub fire_events : Occurs → List FireEvent → World → World
  fire_events occurs [] world = world
  fire_events occurs (event ∷ events) world =
      fire_events occurs events
        (if same_occurs event.occurs occurs then perform event.event world else world)

  -- `std::min(1.0f, std::max(0.0f, mix))`.
  unfoldable pub clamp : Float → Float
  clamp mix =
      let above = if lt (of_ℕ 0) mix then mix else of_ℕ 0 in
      if lt above (of_ℕ 1) then above else of_ℕ 1

  abbrev pub advance_state : Float → StateInstance → World → StateInstance × World
  advance_state seconds (state, inst) world =
      let (inst', world') = advance_instance state seconds inst world in ((state, inst'), world')

  module _ (states : ℕ → LayerState) where
    unfoldable pub update_mix : Float → Layer → Layer
    unfolding fire_events clamp
    update_mix seconds l = elim (l.transition) [
      | none ↦ record l { mix = of_ℕ 1 }
      | some transition ↦ elim (l.state_from) [
        | none ↦ record l { mix = of_ℕ 1 }
        | some (from, inst) ↦
            let mix = clamp (add l.mix (div seconds (mix_time machine transition (states from)))) in
            if transition.duration == 0
            then record l { mix = of_ℕ 1 }
            else if eq mix (of_ℕ 1) && not (l.transition_completed)
            then record l {
              mix = mix;
              transition_completed = true;
              animation_reset = none;
              world = fire_events Occurs.at_end transition.events l.world;
            }
            else record l { mix = mix }
      ]
    ]

    unfoldable pub fire_state_events : Occurs → Option ℕ → World → World
    unfolding fire_events
    fire_state_events occurs none world = world
    fire_state_events occurs (some state) world = fire_events occurs (states state).events world

    abbrev instance_of : Option ℕ → Option StateInstance
    instance_of none = none
    instance_of (some state) = some (state, make_instance state)

    unfoldable pub change_state : Option ℕ → Layer → Bool × Layer
    unfolding fire_state_events same_state
    change_state state_to l =
        let world' = fire_state_events Occurs.at_end (state_of l.current) l.world in
        if same_state (state_of l.current) state_to then (false, l) else (
          true,
          record l {
            current = instance_of state_to;
            world = fire_state_events Occurs.at_start state_to world';
          },
        )

    -- `m_transition = transition` and its events.
    unfoldable pub start_transition : Transition → Layer → Layer
    unfolding fire_events
    start_transition transition l =
        let world' = fire_events Occurs.at_start transition.events l.world in
        if transition.duration == 0
        then record l {
          changed = true;
          transition = some transition;
          transition_completed = true;
          world = fire_events Occurs.at_end transition.events world';
        }
        else record l {
          changed = true;
          transition = some transition;
          transition_completed = false;
          world = world';
        }

    -- `m_stateFrom = outState`, the animation reset, and the hold on exit.
    unfoldable pub leave_state : Transition → Option StateInstance → Layer → Layer
    leave_state transition out l =
        let reset =
          if l.transition_completed
          then l.animation_reset
          else some (from_states out l.current l.world) in
        elim out [
          | none ↦ record l { state_from = none; animation_reset = reset }
          | some (state, inst) ↦
              let (holds, inst') = apply_exit_condition machine transition (states state) inst in
              record l {
                state_from = some (state, inst');
                animation_reset = reset;
                hold_animation =
                    if holds then some (animation_of inst', time inst') else l.hold_animation;
              }
        ]

    -- `m_mixFrom = m_mix`, and the time that the old animation spilled.
    unfoldable pub begin_mix : Transition → Layer → Layer
    begin_mix transition l =
        let l' = record l {
          mix_from = l.mix;
          hold_animation_from =
              if eq l.mix (of_ℕ 0)
              then l.hold_animation_from
              else has_flag transition.flags pause_on_exit;
        } in
        elim (l.state_from) [
          | none ↦ l'
          | some (from, inst) ↦ elim (l.current) [
            | none ↦ l'
            | some current ↦
                let (current', world') = advance_state (spilled_time inst) current l.world in
                if is_animation_state (states from)
                then record l' { current = some current'; world = world' }
                else l'
          ]
        ]

    -- What tryChangeState does once it has found the transition.
    unfoldable pub take_transition : Transition → Layer → Layer
    unfolding update_mix change_state start_transition leave_state begin_mix
    take_transition transition l =
        let (changes, l1) =
          change_state transition.state_to (record l { animation_reset = none }) in
        let l2 = leave_state transition l.current (start_transition transition l1) in
        let l3 = update_mix (of_ℕ 0) (record (begin_mix transition l2) { mix = of_ℕ 0 }) in
        record l3 { waiting_for_exit = false }

    unfoldable pub try_change_state : Option StateInstance → Bool → Layer → Bool × Layer
    unfolding take_transition
    try_change_state none ignore_triggers l = (false, l)
    try_change_state (some (from, inst)) ignore_triggers l =
        let (found, (waiting, world')) =
          find_allowed_transition machine (states from) inst ignore_triggers (state_of l.current)
            l.waiting_for_exit l.world in
        let l' = record l { waiting_for_exit = waiting; world = world' } in
        elim found [ none ↦ (false, l') | some transition ↦ (true, take_transition transition l') ]
