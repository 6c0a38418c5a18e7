-- ===== src/Animation/Layer/Mixing.antt =====
-- The invariant of StateMachineLayerInstance (src/animation/state_machine_instance.cpp): its mixes,
-- its current state and its animation reset.
use rive_cpp_legacy.Prelude.{
  ℕ, zero, suc, ◌≡◌, ◌≢◌, refl, sym, subst, ◌⊎◌, inl, inr, Bool, true, false, not, Option, none,
  some, arith, Bool-cases, Option-cases, ◌==◌,
}
use rive_cpp_legacy.Animation.Layer.{Transition, LayerState, Machine}
use rive_cpp_legacy.Animation.Layer.Choice.{find_allowed_transition, same_state}
use rive_cpp_legacy.Animation.Layer.Chosen.{Among, find_allowed_transition-Among}
use rive_cpp_legacy.Animation.Layer.State.{
  StateInstance, Layer, state_of, clamp, update_mix, change_state, start_transition, leave_state,
  begin_mix, take_transition, try_change_state,
}
use rive_cpp_legacy.Animation.Layer.Step.{update_state, apply, change_loop, max_iterations}

module _ (machine : Machine) where
  open machine use {Float, of_ℕ, lt, lt_asym, zero_lt_one, one_eq, lt_ne}

  abbrev pub InRange : Float → Type 0
  InRange mix = (lt mix (of_ℕ 0) ≡ false) × (lt (of_ℕ 1) mix ≡ false)

  lt_self : (a : Float) → lt a a ≡ false
  lt_self a = ground (arith, lt_asym a a)

  pub InRange-one : InRange (of_ℕ 1)
  InRange-one = (lt_asym _ _ zero_lt_one, lt_self _)

  InRange-zero : InRange (of_ℕ 0)
  InRange-zero = (lt_self _, lt_asym _ _ zero_lt_one)

  InRange-clamp : (mix : Float) → InRange (clamp machine mix)
  unfolding clamp
  InRange-clamp mix =
      ground
        (arith, InRange-one, InRange-zero, lt_asym (of_ℕ 0) mix, lt_asym mix (of_ℕ 1), zero_lt_one)

  -- Both mixes lie between 0 and 1, a completed transition has no animation reset left, and there
  -- is a current state.
  abbrev pub IsValid : Layer machine → Type 0
  IsValid l =
      InRange l.mix
      × InRange l.mix_from
      × ((l.transition_completed ≡ false) ⊎ (l.animation_reset ≡ none))
      × (state_of machine l.current ≢ none)

  module _ (states : ℕ → LayerState) where
    -- Every transition leads to a state, as StateMachineLayerImporter::resolve sees to.
    abbrev pub HasTargets : Type 0
    HasTargets =
        (from : ℕ) (transition : Transition)
        → Among transition (states from).transitions
        → transition.state_to ≢ none

    pub update_mix-IsValid :
        (seconds : Float) (l : Layer machine)
        → IsValid l
        → IsValid (update_mix machine states seconds l)
    unfolding update_mix
    update_mix-IsValid seconds l (range, range_from, reset, current) = (
      grind (arith, InRange-one, InRange-clamp),
      ground (arith, range_from),
      ground (arith, reset),
      ground (arith, current),
    )

    -- A change of state keeps everything of the invariant but the reset, which it takes away first.
    begin_mix_parts :
        (transition : Transition) (l : Layer machine)
        → (state_of machine (begin_mix machine states transition l).current
            ≡ state_of machine l.current)
          × ((begin_mix machine states transition l).mix_from ≡ l.mix)
          × ((begin_mix machine states transition l).transition_completed ≡ l.transition_completed)
          × ((begin_mix machine states transition l).animation_reset ≡ l.animation_reset)
    unfolding begin_mix
    begin_mix_parts transition l = ground arith

    leave_state_parts :
        (transition : Transition) (out : Option (StateInstance machine)) (l : Layer machine)
        → (l.animation_reset ≡ none)
        → ((leave_state machine states transition out l).current ≡ l.current)
          × ((leave_state machine states transition out l).mix ≡ l.mix)
          × (((leave_state machine states transition out l).transition_completed ≡ false)
              ⊎ ((leave_state machine states transition out l).animation_reset ≡ none))
    unfolding leave_state
    leave_state_parts transition none l clear = ground arith
    leave_state_parts transition (some (state, inst)) l clear = ground arith

    start_transition_parts :
        (transition : Transition) (l : Layer machine)
        → ((start_transition machine states transition l).current ≡ l.current)
          × ((start_transition machine states transition l).mix ≡ l.mix)
          × ((start_transition machine states transition l).animation_reset ≡ l.animation_reset)
    unfolding start_transition
    start_transition_parts transition l = ground arith

    change_state_parts :
        (state_to : Option ℕ) (l : Layer machine)
        → state_to ≢ none
        → (state_of machine (change_state machine states state_to l).1.current ≢ none)
          × ((change_state machine states state_to l).1.mix ≡ l.mix)
          × ((change_state machine states state_to l).1.animation_reset ≡ l.animation_reset)
    unfolding change_state same_state
    change_state_parts none l some' = absurd (some' refl)
    change_state_parts (some state) l some' = elim (Option-cases l.current) [
      | inl nothing ↦ ground (arith, nothing)
      | inr (current, here) ↦ ground (arith, here)
    ]

    take_transition-IsValid :
        (transition : Transition) (l : Layer machine)
        → transition.state_to ≢ none
        → IsValid l
        → IsValid (take_transition machine states transition l)
    unfolding take_transition
    take_transition-IsValid transition l target (range, range_from, reset, current) =
        let l0 = record l { animation_reset = none } in
        let l1 = (change_state machine states transition.state_to l0).1 in
        let l2 = start_transition machine states transition l1 in
        let l3 = leave_state machine states transition l.current l2 in
        let l4 = begin_mix machine states transition l3 in
        let (changed, mix1, reset1) = change_state_parts transition.state_to l0 target in
        let (current2, mix2, reset2) = start_transition_parts transition l1 in
        let (current3, mix3, reset3) =
          leave_state_parts transition l.current l2 (ground (arith, reset1, reset2)) in
        let (current4, mix4, completed4, reset4) = begin_mix_parts transition l3 in
        update_mix-IsValid (of_ℕ 0) (record l4 { mix = of_ℕ 0 })
          (
            InRange-zero,
            ground (arith, range, mix1, mix2, mix3, mix4),
            ground (arith, reset3, completed4, reset4),
            ground (arith, changed, current2, current3, current4),
          )

    module _ (targets : HasTargets) where
      try_change_state-IsValid :
          (from : Option (StateInstance machine)) (ignore_triggers : Bool) (l : Layer machine)
          → IsValid l
          → IsValid (try_change_state machine states from ignore_triggers l).1
      unfolding try_change_state
      try_change_state-IsValid none ignore_triggers l valid = valid
      try_change_state-IsValid (some (from, inst)) ignore_triggers l valid =
          let choice =
            find_allowed_transition machine (states from) inst ignore_triggers
              (state_of machine l.current) l.waiting_for_exit l.world in
          let l' = record l { waiting_for_exit = choice.1.0; world = choice.1.1 } in
          elim (Option-cases choice.0) [
            | inl nothing ↦
                let e : (try_change_state machine states (some (from, inst)) ignore_triggers l).1
                    ≡ l' =
                  ground (arith, nothing) in
                subst IsValid (sym e) valid
            | inr (transition, found) ↦
                let (is, among) =
                  find_allowed_transition-Among machine (states from) inst ignore_triggers
                    (state_of machine l.current) l.world transition l.waiting_for_exit choice.1
                    (ground (arith, found)) in
                let e : (try_change_state machine states (some (from, inst)) ignore_triggers l).1
                    ≡ take_transition machine states transition l' =
                  ground (arith, found) in
                subst IsValid (sym e)
                  (take_transition-IsValid transition l' (targets from transition among) valid)
          ]

      update_state-IsValid :
          (ignore_triggers : Bool) (l : Layer machine)
          → IsValid l
          → IsValid (update_state machine states ignore_triggers l).1
      unfolding update_state
      update_state-IsValid ignore_triggers l valid =
          let start = record l { waiting_for_exit = false } in
          let l1 = (try_change_state machine states (some l.any_state) ignore_triggers start).1 in
          let valid1 = try_change_state-IsValid (some l.any_state) ignore_triggers start valid in
          let valid2 = try_change_state-IsValid l1.current ignore_triggers l1 valid1 in
          ground (arith, valid, valid1, valid2)

      apply-IsValid : (l : Layer machine) → IsValid l → IsValid (apply machine states l)
      unfolding apply
      apply-IsValid l valid = valid

      pub change_loop-IsValid :
          (left : ℕ) (l : Layer machine) → IsValid l → IsValid (change_loop machine states left l).1
      unfolding change_loop
      change_loop-IsValid zero l valid =
          let l' = (update_state machine states true l).1 in
          let valid' = update_state-IsValid true l valid in
          elim (Bool-cases (update_state machine states true l).0) [
            | inl more ↦
                let e : (change_loop machine states zero l).1 ≡ apply machine states l' =
                  rw (more, change_loop) refl in
                subst IsValid (sym e) (apply-IsValid l' valid')
            | inr done ↦
                let e : (change_loop machine states zero l).1 ≡ l' = rw (done, change_loop) refl in
                subst IsValid (sym e) valid'
          ]
      change_loop-IsValid (suc left) l valid =
          let ignore = not (suc left == max_iterations) in
          let l' = (update_state machine states ignore l).1 in
          let valid' = update_state-IsValid ignore l valid in
          elim (Bool-cases (update_state machine states ignore l).0) [
            | inl more ↦
                let e : (change_loop machine states (suc left) l).1
                    ≡ (change_loop machine states left (apply machine states l')).1 =
                  rw (more, change_loop) refl in
                subst IsValid (sym e)
                  (change_loop-IsValid left (apply machine states l') (apply-IsValid l' valid'))
            | inr done ↦
                let e : (change_loop machine states (suc left) l).1 ≡ l' =
                  rw (done, change_loop) refl in
                subst IsValid (sym e) valid'
          ]
