-- ===== src/Animation/Layer/Choice.antt =====
-- How StateMachineLayerInstance (src/animation/state_machine_instance.cpp) chooses a transition.
-- `evaluatedRandomWeight` is read only where findRandomTransition has just written it, so that it
-- is a list made there.
use rive_cpp_legacy.Prelude.{
  ℕ, ◌+◌, ◌%◌, ◌^◌, ltb, Bool, true, false, not, ◌&&◌, ◌||◌, List, [], ◌∷◌, Option, none, some,
  if◌then◌else◌, ◌==◌,
}
use rive_cpp_legacy.Animation.Layer.{Transition, LayerState, Allow, random, has_flag, Machine}
use rive_cpp_legacy.Animation.Layer.Transitions.{allowed}

-- Whether two pointers to states, which may be null, are the same.
unfoldable pub same_state : Option ℕ → Option ℕ → Bool
same_state none none = true
same_state none (some b) = false
same_state (some a) none = false
same_state (some a) (some b) = a == b

-- `canChangeState`, with the current state.
unfoldable pub can_change_state : Option ℕ → Option ℕ → Bool
unfolding same_state
can_change_state current state_to = not (same_state current state_to)

unfoldable pub is_granted : Allow → Bool
is_granted Allow.granted = true
is_granted Allow.waiting_for_exit = false
is_granted Allow.refused = false

unfoldable pub is_waiting : Allow → Bool
is_waiting Allow.waiting_for_exit = true
is_waiting Allow.granted = false
is_waiting Allow.refused = false

module _ (machine : Machine) where
  open machine use {Float, World, Inst, of_ℕ, rand, weight_sum, weight_gt}

  module _ (from : LayerState) (inst : Inst) (ignore_triggers : Bool) where
    -- The test that both loops make of a transition.
    unfoldable pub eligible : Option ℕ → World → Transition → Bool
    unfolding can_change_state is_granted
    eligible current world transition =
        is_granted (allowed machine transition from inst ignore_triggers world)
        && can_change_state current transition.state_to

    unfoldable pub waits : World → Transition → Bool
    unfolding is_waiting
    waits world transition = is_waiting (allowed machine transition from inst ignore_triggers world)

    -- The first loop of findRandomTransition: the weights, their total and m_waitingForExit.
    unfoldable pub weigh :
        Option ℕ → World → List Transition → ℕ → Bool → List (ℕ × Transition) × (ℕ × Bool)
    unfolding eligible waits
    weigh current world [] total waiting = ([], (total, waiting))
    weigh current world (transition ∷ transitions) total waiting =
        let is_eligible = eligible current world transition in
        let weight : ℕ = if is_eligible then transition.random_weight else 0 in
        let (weights, rest) =
          weigh current world transitions ((total + weight) % 2 ^ 32)
            (waiting || not is_eligible && waits world transition) in
        ((weight, transition) ∷ weights, rest)

    -- The second loop.
    unfoldable pub pick : List (ℕ × Transition) → Float → ℕ → ℕ → Option Transition
    pick [] current_weight draw total = none
    pick ((weight, transition) ∷ weights) current_weight draw total =
        if weight_gt (weight_sum current_weight weight) draw total
        then some transition
        else pick weights (weight_sum current_weight weight) draw total

    -- The transition, m_waitingForExit, and the world after `rand`.
    unfoldable pub find_random_transition :
        Option ℕ → Bool → World → Option Transition × (Bool × World)
    unfolding weigh pick
    find_random_transition current waiting world =
        let (weights, (total, waiting')) = weigh current world from.transitions 0 waiting in
        let (draw, world') = rand world in
        if ltb 0 total
        then (pick weights (of_ℕ 0) draw total, (waiting', world'))
        else (none, (waiting', world))

    unfoldable pub find_first : Option ℕ → World → List Transition → Bool → Option Transition × Bool
    unfolding eligible waits
    find_first current world [] waiting = (none, waiting)
    find_first current world (transition ∷ transitions) waiting =
        let rest = find_first current world transitions (waiting || waits world transition) in
        if eligible current world transition then (some transition, waiting) else rest

    unfoldable pub find_allowed_transition :
        Option ℕ → Bool → World → Option Transition × (Bool × World)
    unfolding find_random_transition find_first
    find_allowed_transition current waiting world =
        let (found, waiting') = find_first current world from.transitions waiting in
        if has_flag from.flags random
        then find_random_transition current waiting world
        else (found, (waiting', world))
