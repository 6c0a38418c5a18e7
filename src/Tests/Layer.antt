-- ===== src/Tests/Layer.antt =====
-- A layer of a state machine over whole numbers: an entry state 1 with a transition to the state 2,
-- which shows an animation, and an any state 0 with none.
use rive_cpp_legacy.Prelude.{
  ℕ, zero, suc, ◌+◌, ◌*◌, ◌/◌, ◌≡◌, refl, ◌⊎◌, Bool, true, false, not, ◌&&◌, List, [], ◌∷◌, none,
  some, All, arith, ltb, leb, ◌==◌,
}
use rive_cpp_legacy.Animation.Layer.{Transition, LayerState, Kind, Machine, random}
use rive_cpp_legacy.Animation.Layer.Choice.{find_allowed_transition, can_change_state}
use rive_cpp_legacy.Animation.Layer.Transitions.{allowed}
use rive_cpp_legacy.Animation.Layer.Open.{IsOpen, WaitsAfter}
use rive_cpp_legacy.Animation.Layer.Chosen.{
  Among, here, there, IsFirst, find_allowed_transition-IsFirst,
}
use rive_cpp_legacy.Animation.Layer.State.{StateInstance, Layer, state_of}
use rive_cpp_legacy.Animation.Layer.Step.{
  is_transitioning, enables_early_exit, update_state, advance, init,
}
use rive_cpp_legacy.Animation.Layer.Mixing.{IsValid, HasTargets}
use rive_cpp_legacy.Animation.Layer.Changes.{Took, Stays, update_state-Takes}
use rive_cpp_legacy.Animation.Layer.Advance.{advance-IsValid, init-IsValid}

ltb_asym : (a b : ℕ) → ltb a b ≡ true → ltb b a ≡ false
ltb_asym a b h = ground arith

ltb_ne : (a b : ℕ) → ltb a b ≡ true → (a == b) ≡ false
ltb_ne a b h = ground arith

add_zero : (a : ℕ) → a + 0 ≡ a
add_zero a = omega arith

not_below_zero : (draw total : ℕ) → ltb draw 0 ≡ false
not_below_zero draw total = ground arith

-- An instance is its time, and the world a count of the calls that change it.
abbrev counting : Machine
counting = record {
  Float = ℕ;
  World = ℕ;
  Inst = ℕ;
  Reset = ℕ;
  of_ℕ = λ n. n;
  add = ◌+◌;
  mul = ◌*◌;
  div = ◌/◌;
  floor = λ a. a;
  lt = ltb;
  le = leb;
  eq = ◌==◌;
  lt_asym = ltb_asym;
  lt_ne = ltb_ne;
  zero_lt_one = refl;
  one_eq = refl;
  make_instance = λ state. 0;
  advance_instance = λ state seconds inst world. (inst + seconds, world + 1);
  apply_instance = λ state inst mix world. world + 1;
  keep_going = λ inst. false;
  clear_spilled_time = λ inst. inst;
  spilled_time = λ inst. 0;
  last_total_time = λ inst. inst;
  total_time = λ inst. inst;
  time = λ inst. inst;
  set_time = λ time inst. time;
  animation_of = λ inst. 0;
  start_seconds = λ animation. 0;
  duration_seconds = λ animation. 10;
  is_one_shot = λ animation. true;
  apply_animation = λ animation time mix world. world + 1;
  evaluate = λ condition world. leb condition world;
  perform = λ event world. world + 1;
  transform = λ cubic mix. mix;
  from_states = λ from to world. 0;
  apply_reset = λ reset world. world + 1;
  rand = λ world. (world, world + 1);
  weight_sum = ◌+◌;
  weight_gt = λ sum draw total. ltb draw sum;
  weight_sum-zero = add_zero;
  weight_gt-start = not_below_zero;
}

abbrev to_animation : Transition
to_animation = record {
  state_to = some 2;
  conditions = [];
  flags = 0;
  duration = 2000;
  exit_time = 0;
  random_weight = 1;
  interpolator = none;
  events = [];
}

abbrev entry_state : LayerState
entry_state = record {
  kind = Kind.other_state;
  flags = 0;
  transitions = to_animation ∷ [];
  events = [];
}

abbrev animation_state : LayerState
animation_state = record {
  kind = Kind.animation_state (some 0);
  flags = 0;
  transitions = [];
  events = [];
}

abbrev states : ℕ → LayerState
states zero = record { kind = Kind.other_state; flags = 0; transitions = []; events = [] }
states (suc zero) = entry_state
states (suc (suc state)) = animation_state

not_among : {t : Transition} {ts : List Transition} → Among t ts → ts ≡ [] → {A : Type 0} → A
not_among here e = cc
not_among (there m) e = cc

only-Among : {t u : Transition} {ts : List Transition} → Among t ts → ts ≡ u ∷ [] → t ≡ u
only-Among here e = ground arith
only-Among (there m) e = not_among m (ground arith)

states-HasTargets : HasTargets counting states
states-HasTargets zero transition among e = not_among among refl
states-HasTargets (suc zero) transition among nothing =
    let e = only-Among among refl in ground (arith, e, nothing)
states-HasTargets (suc (suc state)) transition among e = not_among among refl

abbrev entered : Layer counting
entered = record {
  any_state = (0, 0);
  current = some (1, 0);
  state_from = none;
  transition = none;
  animation_reset = none;
  transition_completed = false;
  hold_animation_from = false;
  mix = 1;
  mix_from = 1;
  changed = false;
  waiting_for_exit = false;
  hold_animation = none;
  world = 7;
}

init-entered : init counting states 0 (some 1) 7 ≡ entered
unfolding init
init-entered = refl

advance-IsValid_example :
    (keep_going : Bool) × (l' : Layer counting) × (advance counting states 1
        (init counting states 0 (some 1) 7)
      ≡ some (keep_going, l'))
    × IsValid counting l'
advance-IsValid_example =
    advance-IsValid counting states states-HasTargets 1 (init counting states 0 (some 1) 7)
      (init-IsValid counting states 0 1 7)

-- The layer shows the animation, and stays in it.
abbrev animating : Layer counting
animating = record entered { current = some (2, 3) }

advance-animating :
    advance counting states 1 animating
    ≡ some (false, record animating { current = some (2, 4); world = 9 })
unfolding advance find_allowed_transition
advance-animating = refl

update_state-Takes_example :
    ((true ≡ false) × Stays counting states entered (update_state counting states false entered).1)
    ⊎ ((true ≡ true)
        × ((is_transitioning counting states entered
              && not (enables_early_exit counting states entered))
            ≡ false)
        × (can_change_state
              (some 1)
              (state_of counting (update_state counting states false entered).1.current)
            ≡ true)
        × ((from : StateInstance counting) × (transition : Transition) × ((from ≡ (0, 0))
              ⊎ (some from ≡ some (1, 0)))
            × Among transition (states from.0).transitions
            × Took counting states transition entered
                (update_state counting states false entered).1))
unfolding update_state find_allowed_transition allowed
update_state-Takes_example =
    update_state-Takes counting states false entered (update_state counting states false entered).1
      true refl

find_allowed_transition-IsFirst_example :
    (◌≡◌ {A = ℕ} 7 7)
    × (((t : Transition) × (some to_animation ≡ some t)
          × IsFirst counting entry_state 0 false (some 1) 7 t (to_animation ∷ []) false false)
        ⊎ ((some to_animation ≡ none)
            × All (λ u. ¬ IsOpen counting entry_state 0 false (some 1) 7 u) (to_animation ∷ [])
            × WaitsAfter counting entry_state 0 false (some 1) 7 false false (to_animation ∷ [])))
unfolding find_allowed_transition allowed
find_allowed_transition-IsFirst_example =
    find_allowed_transition-IsFirst counting entry_state 0 false (some 1) 7 false
      (some to_animation) false 7 refl refl

-- The same state, choosing at random.
abbrev random_state : LayerState
random_state = record entry_state { flags = random }
