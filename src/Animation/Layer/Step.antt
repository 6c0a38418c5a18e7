-- ===== src/Animation/Layer/Step.antt =====
-- StateMachineLayerInstance (src/animation/state_machine_instance.cpp): advance and apply.
use rive_cpp_legacy.Prelude.{
  ℕ, zero, suc, Bool, true, false, not, ◌&&◌, ◌||◌, Option, none, some, if◌then◌else◌, ◌==◌,
}
use rive_cpp_legacy.Animation.Layer.{Transition, LayerState, enable_early_exit, has_flag, Machine}
use rive_cpp_legacy.Animation.Layer.State.{
  StateInstance, Layer, advance_state, update_mix, change_state, try_change_state,
}

abbrev pub max_iterations : ℕ
max_iterations = 100

module _ (machine : Machine) where
  open machine use {
    Float, World, of_ℕ, lt, eq, make_instance, apply_instance, keep_going, clear_spilled_time,
    apply_animation, transform, apply_reset,
  }

  module _ (states : ℕ → LayerState) where
    unfoldable pub is_transitioning : Layer machine → Bool
    is_transitioning l = elim (l.transition) [
      | none ↦ false
      | some transition ↦ elim (l.state_from) [
        | none ↦ false
        | some from ↦ not (transition.duration == 0) && lt l.mix (of_ℕ 1)
      ]
    ]

    unfoldable pub enables_early_exit : Layer machine → Bool
    enables_early_exit l = elim (l.transition) [
      | none ↦ false
      | some transition ↦ has_flag transition.flags enable_early_exit
    ]

    unfoldable pub update_state : Bool → Layer machine → Bool × Layer machine
    unfolding try_change_state is_transitioning enables_early_exit
    update_state ignore_triggers l =
        let (done, l1) =
          try_change_state machine states (some l.any_state) ignore_triggers
            (record l { waiting_for_exit = false }) in
        if is_transitioning l && not (enables_early_exit l)
        then (false, l)
        else if done
        then (true, l1)
        else try_change_state machine states l1.current ignore_triggers l1

    abbrev eased : Option Transition → Float → Float
    eased none mix = mix
    eased (some transition) mix = elim (transition.interpolator) [
      | none ↦ mix
      | some cubic ↦ transform cubic mix
    ]

    abbrev apply_state : Option (StateInstance machine) → Float → World → World
    apply_state none mix world = world
    apply_state (some (state, inst)) mix world = apply_instance state inst mix world

    unfoldable pub apply : Layer machine → Layer machine
    apply l =
        let world1 : World = elim (l.animation_reset) [
          | none ↦ l.world
          | some reset ↦ apply_reset reset l.world
        ] in
        let world2 : World = elim (l.hold_animation) [
          | none ↦ world1
          | some (animation, held) ↦ apply_animation animation held l.mix_from world1
        ] in
        let world3 =
          if lt l.mix (of_ℕ 1)
          then apply_state l.state_from (eased l.transition l.mix_from) world2
          else world2 in
        record l {
          hold_animation = none;
          world = apply_state l.current (eased l.transition l.mix) world3;
        }

    -- The loop of `advance` with `left` for `maxIterations - i`, and whether it ran out of them.
    unfoldable pub change_loop : ℕ → Layer machine → Bool × Layer machine
    unfolding update_state apply
    change_loop zero l =
        let (changes, l') = update_state (not (max_iterations == 0)) l in
        if changes then (true, apply l') else (false, l')
    change_loop (suc left) l =
        let (changes, l') = update_state (not (suc left == max_iterations)) l in
        let rest = change_loop left (apply l') in if changes then rest else (false, l')

    abbrev pub advance_from : Float → Layer machine → Layer machine
    advance_from seconds l = elim (l.state_from) [
      | none ↦ l
      | some from ↦
          let (from', world') = advance_state machine seconds from l.world in
          if lt l.mix (of_ℕ 1) && not (l.hold_animation_from)
          then record l { state_from = some from'; world = world' }
          else l
    ]

    -- `advance` up to its loop.
    unfoldable pub advance_states : Float → StateInstance machine → Layer machine → Layer machine
    unfolding update_mix apply
    advance_states seconds current l =
        let (current', world') = advance_state machine seconds current l.world in
        apply (
          advance_from seconds (
            update_mix machine states seconds
              (record l { changed = false; current = some current'; world = world' })))

    -- What follows the loop. `none` is a call on the null pointer.
    unfoldable pub finish : Bool → Layer machine → Option (Bool × Layer machine)
    finish exceeded l = if exceeded then some (false, l) else elim (l.current) [
      | none ↦ none
      | some (state, inst) ↦
          let inst' = clear_spilled_time inst in
          some (
            not (eq l.mix (of_ℕ 1)) || l.waiting_for_exit || keep_going inst',
            record l { current = some (state, inst') },
          )
    ]

    -- `advance`, by its current state.
    unfoldable pub advance_with :
        Float → Option (StateInstance machine) → Layer machine → Option (Bool × Layer machine)
    unfolding advance_states change_loop finish
    advance_with seconds none l = none
    advance_with seconds (some current) l =
        let (exceeded, l') = change_loop max_iterations (advance_states seconds current l) in
        finish exceeded l'

    unfoldable pub advance : Float → Layer machine → Option (Bool × Layer machine)
    unfolding advance_with
    advance seconds l = advance_with seconds l.current l

    unfoldable pub init : ℕ → Option ℕ → World → Layer machine
    unfolding change_state
    init any_state entry_state world =
        let (changes, l) = change_state machine states entry_state (record {
          any_state = (any_state, make_instance any_state);
          current = none;
          state_from = none;
          transition = none;
          animation_reset = none;
          transition_completed = false;
          hold_animation_from = false;
          mix = of_ℕ 1;
          mix_from = of_ℕ 1;
          changed = false;
          waiting_for_exit = false;
          hold_animation = none;
          world = world;
        }) in
        l
