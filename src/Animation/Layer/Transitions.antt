-- ===== src/Animation/Layer/Transitions.antt =====
-- StateTransition (src/animation/state_transition.cpp), without the overrides of
-- BlendStateTransition.
use rive_cpp_legacy.Prelude.{
  ℕ, Bool, true, false, not, ◌&&◌, ◌||◌, List, [], ◌∷◌, Option, none, some, if◌then◌else◌, ◌==◌,
}
use rive_cpp_legacy.Animation.Layer.{
  Condition, Transition, Kind, LayerState, Allow, disabled, duration_is_percentage,
  enable_exit_time, exit_time_is_percentage, pause_on_exit, has_flag, Machine,
}

unfoldable pub exit_time_animation : LayerState → Option ℕ
exit_time_animation from = elim (from.kind) [
  | Kind.animation_state animation ↦ animation
  | Kind.other_state ↦ none
]

unfoldable pub is_animation_state : LayerState → Bool
is_animation_state state = elim (state.kind) [
  | Kind.animation_state animation ↦ true
  | Kind.other_state ↦ false
]

module _ (machine : Machine) where
  open machine use {
    Float, World, Inst, of_ℕ, add, mul, div, floor, lt, le, last_total_time, total_time, set_time,
    animation_of, start_seconds, duration_seconds, is_one_shot, evaluate,
  }

  abbrev animation_duration : Option ℕ → Float
  animation_duration none = of_ℕ 0
  animation_duration (some animation) = duration_seconds animation

  unfoldable pub mix_time : Transition → LayerState → Float
  unfolding exit_time_animation
  mix_time transition state_from =
      if transition.duration == 0
      then of_ℕ 0
      else if has_flag transition.flags duration_is_percentage
      then mul (div (of_ℕ transition.duration) (of_ℕ 100))
          (animation_duration (exit_time_animation state_from))
      else div (of_ℕ transition.duration) (of_ℕ 1000)

  unfoldable pub exit_time_seconds : Transition → LayerState → Bool → Float
  unfolding exit_time_animation
  exit_time_seconds transition state_from absolute =
      let percent = div (of_ℕ transition.exit_time) (of_ℕ 100) in
      if has_flag transition.flags exit_time_is_percentage
      then elim (exit_time_animation state_from) [
        | none ↦ add (of_ℕ 0) (mul percent (of_ℕ 0))
        | some animation ↦
            add (if absolute then start_seconds animation else of_ℕ 0)
              (mul percent (duration_seconds animation))
      ]
      else div (of_ℕ transition.exit_time) (of_ℕ 1000)

  -- The loop over the conditions: whether none returns `no`.
  unfoldable pub conditions_hold : Bool → World → List Condition → Bool
  conditions_hold ignore_triggers world [] = true
  conditions_hold ignore_triggers world (condition ∷ conditions) =
      not (ignore_triggers && condition.is_trigger || not (evaluate condition.condition world))
      && conditions_hold ignore_triggers world conditions

  -- The exit time, brought up to the loop that the animation was in.
  unfoldable pub looped_exit_time : Transition → LayerState → Inst → Float
  unfolding exit_time_seconds
  looped_exit_time transition state inst =
      let exit_time = exit_time_seconds transition state false in
      let duration = duration_seconds (animation_of inst) in
      if le exit_time duration && not (is_one_shot (animation_of inst))
      then add exit_time (mul (floor (div (last_total_time inst) duration)) duration)
      else exit_time

  unfoldable pub allowed : Transition → LayerState → Inst → Bool → World → Allow
  unfolding conditions_hold is_animation_state looped_exit_time
  allowed transition state inst ignore_triggers world =
      if has_flag transition.flags disabled
      then Allow.refused
      else if not (conditions_hold ignore_triggers world transition.conditions)
      then Allow.refused
      else if has_flag transition.flags enable_exit_time
          && is_animation_state state
          && lt (total_time inst) (looped_exit_time transition state inst)
      then Allow.waiting_for_exit
      else Allow.granted

  -- The result, and the instance as the call leaves it.
  unfoldable pub apply_exit_condition : Transition → LayerState → Inst → Bool × Inst
  unfolding is_animation_state exit_time_seconds
  apply_exit_condition transition state inst =
      let use_exit_time = has_flag transition.flags enable_exit_time && is_animation_state state in
      if has_flag transition.flags pause_on_exit && use_exit_time
      then (true, set_time (exit_time_seconds transition state true) inst)
      else (use_exit_time, inst)
