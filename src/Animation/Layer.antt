-- ===== src/Animation/Layer.antt =====
-- The states and transitions of a state machine's layer (include/rive/animation/layer_state.hpp,
-- include/rive/animation/state_transition.hpp), and what StateMachineLayerInstance
-- (src/animation/state_machine_instance.cpp) uses of the animations and of the artboard.
-- A LayerState is named by its number in the layer, as the transitions refer to each other's states.
pub mod Transitions
pub mod Choice
pub mod State
pub mod Step
pub mod Open
pub mod Chosen
pub mod Mixing
pub mod Changes
pub mod Advance
use rive_cpp_legacy.Prelude.{ℕ, ◌≡◌, Bool, true, false, List, Option, bit_and, ◌==◌}

pub data Occurs : Type 0 where
  at_start : Occurs
  at_end : Occurs

pub record FireEvent : Type 0 where
  pub occurs : Occurs
  pub event : ℕ

pub record Condition : Type 0 where
  pub is_trigger : Bool
  pub condition : ℕ

pub record Transition : Type 0 where
  pub state_to : Option ℕ
  pub conditions : List Condition
  pub flags : ℕ
  pub duration : ℕ
  pub exit_time : ℕ
  pub random_weight : ℕ
  pub interpolator : Option ℕ
  pub events : List FireEvent

-- An AnimationState with its animation, where it has one, or a state of another type.
pub data Kind : Type 0 where
  animation_state : Option ℕ → Kind
  other_state : Kind

pub record LayerState : Type 0 where
  pub kind : Kind
  pub flags : ℕ
  pub transitions : List Transition
  pub events : List FireEvent

pub data Allow : Type 0 where
  refused : Allow
  waiting_for_exit : Allow
  granted : Allow

abbrev pub disabled : ℕ
disabled = 1

abbrev pub duration_is_percentage : ℕ
duration_is_percentage = 2

abbrev pub enable_exit_time : ℕ
enable_exit_time = 4

abbrev pub exit_time_is_percentage : ℕ
exit_time_is_percentage = 8

abbrev pub pause_on_exit : ℕ
pause_on_exit = 16

abbrev pub enable_early_exit : ℕ
enable_early_exit = 32

abbrev pub random : ℕ
random = 1

abbrev pub has_flag : ℕ → ℕ → Bool
has_flag flags flag = bit_and flags flag == flag

-- What a layer calls: the floats, the animations that its states' instances run, and the machine and
-- the artboard (`World`), which those calls change. An `Inst` is the part of a StateInstance outside
-- its state; for an AnimationState that is its LinearAnimationInstance.
pub record Machine : Type 1 where
  pub Float : Type 0
  pub World : Type 0
  pub Inst : Type 0
  pub Reset : Type 0
  pub of_ℕ : ℕ → Float
  pub add : Float → Float → Float
  pub mul : Float → Float → Float
  pub div : Float → Float → Float
  pub floor : Float → Float
  pub lt : Float → Float → Bool
  pub le : Float → Float → Bool
  pub eq : Float → Float → Bool
  pub lt_asym : (a b : Float) → lt a b ≡ true → lt b a ≡ false
  pub lt_ne : (a b : Float) → lt a b ≡ true → eq a b ≡ false
  pub zero_lt_one : lt (of_ℕ 0) (of_ℕ 1) ≡ true
  pub one_eq : eq (of_ℕ 1) (of_ℕ 1) ≡ true
  -- LayerState::makeInstance, and the virtual functions of StateInstance.
  pub make_instance : ℕ → Inst
  pub advance_instance : ℕ → Float → Inst → World → Inst × World
  pub apply_instance : ℕ → Inst → Float → World → World
  pub keep_going : Inst → Bool
  pub clear_spilled_time : Inst → Inst
  -- LinearAnimationInstance and LinearAnimation.
  pub spilled_time : Inst → Float
  pub last_total_time : Inst → Float
  pub total_time : Inst → Float
  pub time : Inst → Float
  pub set_time : Float → Inst → Inst
  pub animation_of : Inst → ℕ
  pub start_seconds : ℕ → Float
  pub duration_seconds : ℕ → Float
  pub is_one_shot : ℕ → Bool
  pub apply_animation : ℕ → Float → Float → World → World
  -- TransitionCondition::evaluate, StateMachineFireEvent::perform, CubicInterpolator::transform.
  pub evaluate : ℕ → World → Bool
  pub perform : ℕ → World → World
  pub transform : ℕ → Float → Float
  -- AnimationResetFactory::fromStates of the two instances, and AnimationReset::apply.
  pub from_states : Option (ℕ × Inst) → Option (ℕ × Inst) → World → Reset
  pub apply_reset : Reset → World → World
  -- rand(), and the sums and products of findRandomTransition.
  pub rand : World → ℕ × World
  pub weight_sum : Float → ℕ → Float
  pub weight_gt : Float → ℕ → ℕ → Bool
  pub weight_sum-zero : (a : Float) → weight_sum a 0 ≡ a
  pub weight_gt-start : (draw total : ℕ) → weight_gt (of_ℕ 0) draw total ≡ false
