-- ===== src/Animation/Layer/Open.antt =====
-- Which transitions findAllowedTransition (src/animation/state_machine_instance.cpp) may take, in terms
-- of what `allowed` answers and of the state that a transition leads to.
use rive_cpp_legacy.Prelude.{
  ℕ, ◌≡◌, ◌≢◌, refl, ◌⊎◌, inl, inr, Bool, true, false, ◌||◌, List, [], ◌∷◌, Option, none, some, All,
  Bool-cases, ==_iff, arith, ap,
}
use rive_cpp_legacy.Animation.Layer.{Transition, LayerState, Machine, Allow}
use rive_cpp_legacy.Animation.Layer.Transitions.{allowed}
use rive_cpp_legacy.Animation.Layer.Choice.{
  same_state, can_change_state, is_granted, is_waiting, eligible, waits,
}

same_state_iff :
    (a b : Option ℕ) → (same_state a b ≡ true → a ≡ b) × (a ≡ b → same_state a b ≡ true)
unfolding same_state
same_state_iff none none = ((λ e. refl), (λ e. refl))
same_state_iff none (some b) = ((λ e. cc), (λ e. cc))
same_state_iff (some a) none = ((λ e. cc), (λ e. cc))
same_state_iff (some a) (some b) = ((λ e. ap some ((==_iff a b).0 e)), (λ e. (==_iff a b).1 (cc e)))

is_granted-only : (a : Allow) → is_granted a ≡ true → a ≡ Allow.granted
unfolding is_granted
is_granted-only Allow.granted e = refl
is_granted-only Allow.waiting_for_exit e = cc
is_granted-only Allow.refused e = cc

is_waiting-only : (a : Allow) → is_waiting a ≡ true → a ≡ Allow.waiting_for_exit
unfolding is_waiting
is_waiting-only Allow.waiting_for_exit e = refl
is_waiting-only Allow.granted e = cc
is_waiting-only Allow.refused e = cc

module _ (machine : Machine) (from : LayerState) (inst : machine.Inst) (ignore_triggers : Bool)
    (current : Option ℕ) (world : machine.World) where
  -- The transition is allowed, and leads to another state than the current one.
  abbrev pub IsOpen : Transition → Type 0
  IsOpen t =
      (allowed machine t from inst ignore_triggers world ≡ Allow.granted) × (current ≢ t.state_to)

  -- The transition would be allowed, but for its exit time.
  abbrev pub IsWaiting : Transition → Type 0
  IsWaiting t = allowed machine t from inst ignore_triggers world ≡ Allow.waiting_for_exit

  -- One transition of the list is waiting.
  abbrev pub SomeWait : List Transition → Type 0
  SomeWait [] = ⊥
  SomeWait (t ∷ ts) = IsWaiting t ⊎ SomeWait ts

  -- m_waitingForExit before and after a look at the transitions.
  abbrev pub WaitsAfter : Bool → Bool → List Transition → Type 0
  WaitsAfter waiting waiting' ts =
      ((waiting' ≡ true) × ((waiting ≡ true) ⊎ SomeWait ts))
      ⊎ ((waiting' ≡ false) × (waiting ≡ false) × All (λ t. ¬ IsWaiting t) ts)

  abbrev pub some_wait : List Transition → Bool
  some_wait [] = false
  some_wait (t ∷ ts) = waits machine from inst ignore_triggers world t || some_wait ts

  pub eligible-IsOpen :
      (t : Transition)
      → eligible machine from inst ignore_triggers current world t ≡ true
      → IsOpen t
  unfolding eligible can_change_state
  eligible-IsOpen t e =
      let a = allowed machine t from inst ignore_triggers world in
      (
        is_granted-only a (ground (arith, e)),
        (λ same. absurd (ground (arith, e, (same_state_iff current t.state_to).1 same))),
      )

  closed :
      (t : Transition)
      → eligible machine from inst ignore_triggers current world t ≡ false
      → ¬ IsOpen t
  unfolding eligible can_change_state is_granted
  closed t e (granted, other) = elim (Bool-cases (same_state current t.state_to)) [
    | inl same ↦ other ((same_state_iff current t.state_to).0 same)
    | inr different ↦ absurd (ground (arith, e, granted, different))
  ]

  pub all_closed :
      (ts : List Transition)
      → All (λ t. eligible machine from inst ignore_triggers current world t ≡ false) ts
      → All (λ t. ¬ IsOpen t) ts
  all_closed [] all = tt
  all_closed (t ∷ ts) (e, all) = (closed t e, all_closed ts all)

  not-IsWaiting :
      (t : Transition) → waits machine from inst ignore_triggers world t ≡ false → ¬ IsWaiting t
  unfolding waits is_waiting
  not-IsWaiting t e w = ground (arith, e, w)

  some_wait-SomeWait : (ts : List Transition) → some_wait ts ≡ true → SomeWait ts
  unfolding waits
  some_wait-SomeWait [] e = cc
  some_wait-SomeWait (t ∷ ts) e =
      elim (Bool-cases (waits machine from inst ignore_triggers world t)) [
        | inl yes' ↦ inl (is_waiting-only (allowed machine t from inst ignore_triggers world) yes')
        | inr no' ↦ inr (some_wait-SomeWait ts (ground (arith, e, no')))
      ]

  none_wait : (ts : List Transition) → some_wait ts ≡ false → All (λ t. ¬ IsWaiting t) ts
  none_wait [] e = tt
  none_wait (t ∷ ts) e = (not-IsWaiting t (ground (arith, e)), none_wait ts (ground (arith, e)))

  pub waits_after :
      (waiting waiting' : Bool) (ts : List Transition)
      → waiting' ≡ (waiting || some_wait ts)
      → WaitsAfter waiting waiting' ts
  waits_after true waiting' ts e = inl (e, inl refl)
  waits_after false waiting' ts e = elim (Bool-cases (some_wait ts)) [
    | inl some' ↦ inl (ground (arith, e, some'), inr (some_wait-SomeWait ts some'))
    | inr none' ↦ inr (ground (arith, e, none'), refl, none_wait ts none')
  ]
