-- ===== src/Animation/Layer/Advance.antt =====
-- StateMachineLayerInstance::advance (src/animation/state_machine_instance.cpp) as a whole.
use rive_cpp_legacy.Prelude.{
  ℕ, zero, suc, ◌≡◌, ◌≢◌, refl, ◌∙◌, sym, subst, ap, ◌⊎◌, inl, inr, Bool, true, false, not, ◌||◌,
  none, some, arith, Bool-cases, Option-cases, ◌==◌,
}
use rive_cpp_legacy.Animation.Layer.{LayerState, Machine}
use rive_cpp_legacy.Animation.Layer.State.{StateInstance, Layer, state_of, update_mix, change_state}
use rive_cpp_legacy.Animation.Layer.Step.{
  update_state, apply, change_loop, advance_from, advance_states, finish, advance_with, advance,
  max_iterations, init,
}
use rive_cpp_legacy.Animation.Layer.Mixing.{
  IsValid, HasTargets, update_mix-IsValid, change_loop-IsValid, InRange-one,
}
use rive_cpp_legacy.Animation.Layer.Changes.{update_state-Takes}

module _ (machine : Machine) (states : ℕ → LayerState) where
  open machine use {Float, World}

  some_ne_none : {A : Type 0} (a : A) → some a ≢ none
  some_ne_none a e = cc

  advance_from-IsValid :
      (seconds : Float) (l : Layer machine)
      → IsValid machine l
      → IsValid machine (advance_from machine states seconds l)
  advance_from-IsValid seconds l valid = elim (Option-cases l.state_from) [
    | inl nothing ↦ ground (arith, nothing, valid)
    | inr (from, here) ↦ ground (arith, here, valid)
  ]

  advance_states-IsValid :
      (seconds : Float) (current : StateInstance machine) (l : Layer machine)
      → IsValid machine l
      → IsValid machine (advance_states machine states seconds current l)
  unfolding advance_states apply
  advance_states-IsValid seconds (state, inst) l (range, range_from, reset, current) =
      let (inst', world') = machine.advance_instance state seconds inst l.world in
      let l1 = record l { changed = false; current = some (state, inst'); world = world' } in
      let valid1 =
        update_mix-IsValid machine states seconds l1 (range, range_from, reset, some_ne_none _) in
      advance_from-IsValid seconds (update_mix machine states seconds l1) valid1

  advance-some :
      (seconds : Float) (current : StateInstance machine) (l : Layer machine)
      → l.current ≡ some current
      → advance machine states seconds l
        ≡ finish machine states
            (change_loop machine states max_iterations
              (advance_states machine states seconds current l)).0
            (change_loop machine states max_iterations
              (advance_states machine states seconds current l)).1
  unfolding advance advance_with
  advance-some seconds current l here = ap (λ o. advance_with machine states seconds o l) here

  advance-none :
      (seconds : Float) (l : Layer machine)
      → l.current ≡ none
      → advance machine states seconds l ≡ none
  unfolding advance advance_with
  advance-none seconds l nothing = ap (λ o. advance_with machine states seconds o l) nothing

  true_ne_false : true ≢ false
  true_ne_false e = cc

  finish-IsValid :
      (exceeded : Bool) (l : Layer machine)
      → IsValid machine l
      → (keep_going : Bool) × (l' : Layer machine) × (finish machine states exceeded l
          ≡ some (keep_going, l'))
        × IsValid machine l'
  unfolding finish
  finish-IsValid true l valid = (false, l, refl, valid)
  finish-IsValid false l (range, range_from, reset, current) = elim (Option-cases l.current) [
    | inl nothing ↦ absurd (current (ap (state_of machine) nothing))
    | inr ((state, inst), here) ↦ (
      not (machine.eq l.mix (machine.of_ℕ 1))
          || l.waiting_for_exit
          || machine.keep_going (machine.clear_spilled_time inst),
      record l { current = some (state, machine.clear_spilled_time inst) },
      rw (here, finish) refl,
      (range, range_from, reset, some_ne_none state),
    )
  ]

  -- Where every transition leads to a state, `advance` returns, with no call on the null pointer,
  -- and keeps the layer valid: the mixes between 0 and 1, a completed transition without its
  -- animation reset, and a current state.
  pub advance-IsValid :
      HasTargets machine states
      → (seconds : Float) (l : Layer machine) → IsValid machine l
      → (keep_going : Bool) × (l' : Layer machine) × (advance machine states seconds l
          ≡ some (keep_going, l'))
        × IsValid machine l'
  advance-IsValid targets seconds l valid = elim (Option-cases l.current) [
    | inl nothing ↦ absurd (valid.3 (ap (state_of machine) nothing))
    | inr (current, here) ↦
        let start = advance_states machine states seconds current l in
        let loop = change_loop machine states max_iterations start in
        let valid' =
          change_loop-IsValid machine states targets max_iterations start
            (advance_states-IsValid seconds current l valid) in
        let (keep_going, l', e, valid'') = finish-IsValid loop.0 loop.1 valid' in
        (keep_going, l', advance-some seconds current l here ∙ e, valid'')
  ]

  -- A new layer with an entry state is valid.
  pub init-IsValid :
      (any_state entry_state : ℕ) (world : World)
      → IsValid machine (init machine states any_state (some entry_state) world)
  unfolding init change_state
  init-IsValid any_state entry_state world =
      (InRange-one machine, InRange-one machine, inl refl, some_ne_none _)

  -- Nothing is reported, or the state is the same.
  abbrev pub Reports : Layer machine → Layer machine → Type 0
  Reports l l' =
      (l'.changed ≡ true)
      ⊎ ((l'.changed ≡ l.changed) × (state_of machine l'.current ≡ state_of machine l.current))

  Reports-trans : (a b c : Layer machine) → Reports a b → Reports b c → Reports a c
  Reports-trans a b c h k = ground (arith, h, k)

  update_state-Reports :
      (ignore_triggers : Bool) (l : Layer machine)
      → Reports l (update_state machine states ignore_triggers l).1
  update_state-Reports ignore_triggers l =
      let (changes, l') = update_state machine states ignore_triggers l in
      elim (update_state-Takes machine states ignore_triggers l l' changes refl) [
        | inl (no', stays) ↦ inr (stays.4, ap (state_of machine) stays.0)
        | inr (yes', free, can, (from, transition, which, among, took)) ↦ inl took.3
      ]

  change_loop-Reports :
      (left : ℕ) (l : Layer machine) → Reports l (change_loop machine states left l).1
  unfolding change_loop apply
  change_loop-Reports zero l =
      let l' = (update_state machine states true l).1 in
      let reports = update_state-Reports true l in
      elim (Bool-cases (update_state machine states true l).0) [
        | inl more ↦
            let e : (change_loop machine states zero l).1 ≡ apply machine states l' =
              rw (more, change_loop) refl in
            subst (Reports l) (sym e) reports
        | inr done ↦
            let e : (change_loop machine states zero l).1 ≡ l' = rw (done, change_loop) refl in
            subst (Reports l) (sym e) reports
      ]
  change_loop-Reports (suc left) l =
      let ignore = not (suc left == max_iterations) in
      let l' = (update_state machine states ignore l).1 in
      let reports = update_state-Reports ignore l in
      elim (Bool-cases (update_state machine states ignore l).0) [
        | inl more ↦
            let next = (change_loop machine states left (apply machine states l')).1 in
            let e : (change_loop machine states (suc left) l).1 ≡ next =
              rw (more, change_loop) refl in
            subst (Reports l) (sym e)
              (Reports-trans l l' next reports (change_loop-Reports left (apply machine states l')))
        | inr done ↦
            let e : (change_loop machine states (suc left) l).1 ≡ l' =
              rw (done, change_loop) refl in
            subst (Reports l) (sym e) reports
      ]

  advance_states_start :
      (seconds : Float) (current : StateInstance machine) (l : Layer machine)
      → ((advance_states machine states seconds current l).changed ≡ false)
        × (state_of machine (advance_states machine states seconds current l).current
            ≡ some current.0)
  unfolding advance_states apply update_mix
  advance_states_start seconds (state, inst) l = ground arith

  finish-states :
      (exceeded : Bool) (l l' : Layer machine) (keep_going : Bool)
      → finish machine states exceeded l ≡ some (keep_going, l')
      → (l'.changed ≡ l.changed) × (state_of machine l'.current ≡ state_of machine l.current)
  unfolding finish
  finish-states true l l' keep_going e = ground (arith, e)
  finish-states false l l' keep_going e = elim (Option-cases l.current) [
    | inl nothing ↦ absurd (ground (arith, nothing, e))
    | inr ((state, inst), here) ↦ ground (arith, here, e)
  ]

  -- If an `advance` that returns does not set m_stateMachineChangedOnAdvance, the current state is
  -- the one that it was before.
  advance_unchanged :
      (seconds : Float) (l l' : Layer machine) (keep_going : Bool)
      → advance machine states seconds l ≡ some (keep_going, l')
      → l'.changed ≡ false
      → state_of machine l'.current ≡ state_of machine l.current
  advance_unchanged seconds l l' keep_going e unchanged = elim (Option-cases l.current) [
    | inl nothing ↦ absurd (some_ne_none _ (sym e ∙ advance-none seconds l nothing))
    | inr (current, here) ↦
        let start = advance_states machine states seconds current l in
        let loop = change_loop machine states max_iterations start in
        let reports = change_loop-Reports max_iterations start in
        let (flag, same) = advance_states_start seconds current l in
        let (kept, last) =
          finish-states loop.0 loop.1 l' keep_going
            (sym (advance-some seconds current l here) ∙ e) in
        elim reports [
          | inl reported ↦ absurd (true_ne_false (sym reported ∙ sym kept ∙ unchanged))
          | inr (unreported, state) ↦ last ∙ state ∙ same ∙ ap (state_of machine) (sym here)
        ]
  ]
