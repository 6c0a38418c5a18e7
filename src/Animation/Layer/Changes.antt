-- ===== src/Animation/Layer/Changes.antt =====
-- What tryChangeState and updateState (src/animation/state_machine_instance.cpp) change.
use rive_cpp_legacy.Prelude.{
  ℕ, ◌≡◌, refl, ◌⊎◌, inl, inr, Bool, true, false, not, ◌&&◌, Option, none, some, arith, Bool-cases,
  Option-cases, ==_iff,
}
use rive_cpp_legacy.Animation.Layer.{Transition, LayerState, Machine}
use rive_cpp_legacy.Animation.Layer.Choice.{
  eligible, same_state, can_change_state, find_allowed_transition,
}
use rive_cpp_legacy.Animation.Layer.Chosen.{Among, find_allowed_transition-Among}
use rive_cpp_legacy.Animation.Layer.State.{
  StateInstance, Layer, state_of, update_mix, change_state, start_transition, leave_state,
  begin_mix, take_transition, try_change_state,
}
use rive_cpp_legacy.Animation.Layer.Step.{is_transitioning, enables_early_exit, update_state}

same_state_self : (a : Option ℕ) → same_state a a ≡ true
unfolding same_state
same_state_self none = refl
same_state_self (some a) = ground (arith, ==_iff a a)

module _ (machine : Machine) (states : ℕ → LayerState) where
  open machine use {Float, of_ℕ}

  -- What the parts of a change of state keep: the states, the transition, and its mark.
  abbrev Keeps : Layer machine → Layer machine → Type 0
  Keeps l l' =
      (state_of machine l'.current ≡ state_of machine l.current)
      × (state_of machine l'.state_from ≡ state_of machine l.state_from)
      × (l'.transition ≡ l.transition)
      × (l'.changed ≡ l.changed)
      × (l'.mix_from ≡ l.mix_from)

  update_mix-Keeps :
      (seconds : Float) (l : Layer machine) → Keeps l (update_mix machine states seconds l)
  unfolding update_mix
  update_mix-Keeps seconds l = ground arith

  begin_mix-states :
      (transition : Transition) (l : Layer machine)
      → (state_of machine (begin_mix machine states transition l).current
          ≡ state_of machine l.current)
        × ((begin_mix machine states transition l).state_from ≡ l.state_from)
        × ((begin_mix machine states transition l).transition ≡ l.transition)
        × ((begin_mix machine states transition l).changed ≡ l.changed)
        × ((begin_mix machine states transition l).mix_from ≡ l.mix)
  unfolding begin_mix
  begin_mix-states transition l = ground arith

  leave_state-states :
      (transition : Transition) (out : Option (StateInstance machine)) (l : Layer machine)
      → ((leave_state machine states transition out l).current ≡ l.current)
        × (state_of machine (leave_state machine states transition out l).state_from
            ≡ state_of machine out)
        × ((leave_state machine states transition out l).transition ≡ l.transition)
        × ((leave_state machine states transition out l).changed ≡ l.changed)
        × ((leave_state machine states transition out l).mix ≡ l.mix)
  unfolding leave_state
  leave_state-states transition none l = ground arith
  leave_state-states transition (some (state, inst)) l = ground arith

  start_transition-states :
      (transition : Transition) (l : Layer machine)
      → ((start_transition machine states transition l).current ≡ l.current)
        × ((start_transition machine states transition l).transition ≡ some transition)
        × ((start_transition machine states transition l).changed ≡ true)
        × ((start_transition machine states transition l).mix ≡ l.mix)
  unfolding start_transition
  start_transition-states transition l = ground arith

  change_state-states :
      (state_to : Option ℕ) (l : Layer machine)
      → can_change_state (state_of machine l.current) state_to ≡ true
      → (state_of machine (change_state machine states state_to l).1.current ≡ state_to)
        × ((change_state machine states state_to l).1.mix ≡ l.mix)
  unfolding change_state can_change_state
  change_state-states none l changes = ground arith
  change_state-states (some state) l changes = ground arith

  -- The facts about a layer that has taken a transition from another.
  abbrev pub Took : Transition → Layer machine → Layer machine → Type 0
  Took transition l l' =
      (state_of machine l'.current ≡ transition.state_to)
      × (state_of machine l'.state_from ≡ state_of machine l.current)
      × (l'.transition ≡ some transition)
      × (l'.changed ≡ true)
      × (l'.waiting_for_exit ≡ false)
      × (l'.mix_from ≡ l.mix)

  take_transition-Took :
      (transition : Transition) (l : Layer machine)
      → can_change_state (state_of machine l.current) transition.state_to ≡ true
      → Took transition l (take_transition machine states transition l)
  unfolding take_transition
  take_transition-Took transition l changes =
      let l1 =
        (change_state machine states transition.state_to (record l { animation_reset = none })).1 in
      let l2 = start_transition machine states transition l1 in
      let l3 = leave_state machine states transition l.current l2 in
      let l4 = begin_mix machine states transition l3 in
      ground (
        arith,
        change_state-states transition.state_to (record l { animation_reset = none }) changes,
        start_transition-states transition l1,
        leave_state-states transition l.current l2,
        begin_mix-states transition l3,
        update_mix-Keeps (of_ℕ 0) (record l4 { mix = of_ℕ 0 }),
      )

  eligible_can_change :
      (from : LayerState) (inst : machine.Inst) (ignore_triggers : Bool) (current : Option ℕ)
      (world : machine.World) (transition : Transition)
      → eligible machine from inst ignore_triggers current world transition ≡ true
      → can_change_state current transition.state_to ≡ true
  unfolding eligible
  eligible_can_change from inst ignore_triggers current world transition is = ground arith

  -- The facts about a layer that has not changed its state.
  abbrev pub Stays : Layer machine → Layer machine → Type 0
  Stays l l' =
      (l'.current ≡ l.current)
      × (l'.state_from ≡ l.state_from)
      × (l'.transition ≡ l.transition)
      × (l'.animation_reset ≡ l.animation_reset)
      × (l'.changed ≡ l.changed)
      × (l'.mix ≡ l.mix)

  -- The transition is one of a state's, allowed in some world.
  abbrev pub Takes : StateInstance machine → Bool → Layer machine → Layer machine → Type 0
  Takes (from, inst) ignore_triggers l l' =
      (transition : Transition) × Among transition (states from).transitions
      × (eligible machine (states from) inst ignore_triggers (state_of machine l.current) l.world
            transition
          ≡ true)
      × Took transition l l'

  -- If tryChangeState returns true, the layer has taken a transition of the state it was called
  -- with, which was allowed, and has left the current state for the other end of it; if it
  -- returns false, the layer has its state and its mix as before.
  pub try_change_state-Takes :
      (from : StateInstance machine) (ignore_triggers : Bool) (l l' : Layer machine)
      (changes : Bool)
      → try_change_state machine states (some from) ignore_triggers l ≡ (changes, l')
      → ((changes ≡ true) × Takes from ignore_triggers l l') ⊎ ((changes ≡ false) × Stays l l')
  unfolding try_change_state
  try_change_state-Takes (from, inst) ignore_triggers l l' changes e =
      let choice =
        find_allowed_transition machine (states from) inst ignore_triggers
          (state_of machine l.current) l.waiting_for_exit l.world in
      elim (Option-cases choice.0) [
        | inl nothing ↦ inr (ground (arith, nothing))
        | inr (transition, found) ↦
            let (is, among) =
              find_allowed_transition-Among machine (states from) inst ignore_triggers
                (state_of machine l.current) l.world transition l.waiting_for_exit choice.1
                (ground (arith, found)) in
            let before = record l { waiting_for_exit = choice.1.0; world = choice.1.1 } in
            let took = take_transition-Took transition before (
              eligible_can_change (states from) inst ignore_triggers (state_of machine l.current)
                l.world transition is) in
            inl (ground (arith, found), (transition, among, is, ground (arith, found, took)))
      ]

  -- While updateState returns false, the state and the mix stay as they are. If it returns true,
  -- the layer was not in the middle of a transition that disables early exit, and it has taken a
  -- transition of the any state or of the current one, to another state.
  pub update_state-Takes :
      (ignore_triggers : Bool) (l l' : Layer machine) (changes : Bool)
      → update_state machine states ignore_triggers l ≡ (changes, l')
      → ((changes ≡ false) × Stays l l')
        ⊎ ((changes ≡ true)
            × ((is_transitioning machine states l && not (enables_early_exit machine states l))
                ≡ false)
            × (can_change_state (state_of machine l.current) (state_of machine l'.current) ≡ true)
            × ((from : StateInstance machine) × (transition : Transition) × ((from ≡ l.any_state)
                  ⊎ (some from ≡ l.current))
                × Among transition (states from.0).transitions
                × Took transition l l'))
  unfolding update_state
  update_state-Takes ignore_triggers l l' changes e =
      let start = record l { waiting_for_exit = false } in
      let (done, l1) = try_change_state machine states (some l.any_state) ignore_triggers start in
      elim (Bool-cases
        (is_transitioning machine states l && not (enables_early_exit machine states l))) [
          | inl busy ↦ inl (ground (arith, busy))
          | inr free ↦
              elim (try_change_state-Takes l.any_state ignore_triggers start l1 done refl) [
                | inl (yes', (transition, among, is, took)) ↦
                    let can =
                      eligible_can_change (states l.any_state.0) l.any_state.1 ignore_triggers
                        (state_of machine l.current) l.world transition is in
                    inr (
                      ground (arith, free, yes'),
                      free,
                      ground (arith, free, yes', can, took),
                      (l.any_state, transition, inl refl, among, ground (arith, free, yes', took)),
                    )
                | inr (no', stays) ↦ elim (Option-cases l1.current) [
                  | inl nothing ↦ inl (
                    ground (arith, free, no', nothing),
                    ground (arith, free, no', nothing, stays),
                  )
                  | inr (from, here) ↦
                      let (again, l2) =
                        try_change_state machine states (some from) ignore_triggers l1 in
                      elim (try_change_state-Takes from ignore_triggers l1 l2 again refl) [
                        | inl (yes', (transition, among, is, took)) ↦
                            let can =
                              eligible_can_change (states from.0) from.1 ignore_triggers
                                (state_of machine l1.current) l1.world transition is in
                            inr (
                              ground (arith, free, no', here, yes'),
                              free,
                              ground (arith, free, no', here, yes', can, took, stays),
                              (
                                from,
                                transition,
                                inr (ground (arith, here, stays)),
                                among,
                                ground (arith, free, no', here, yes', took, stays),
                              ),
                            )
                        | inr (no'', stays') ↦ inl (
                          ground (arith, free, no', here, no''),
                          ground (arith, free, no', here, no'', stays, stays'),
                        )
                      ]
                ]
              ]
        ]
