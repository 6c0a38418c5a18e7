-- ===== src/Animation/Layer/Chosen.antt =====
-- The transition that findAllowedTransition (src/animation/state_machine_instance.cpp) returns.
use rive_cpp_legacy.Prelude.{
  ℕ, ◌≡◌, refl, ◌⊎◌, inl, inr, Bool, true, false, ◌||◌, List, [], ◌∷◌, ◌++◌, Option, none, some,
  All, arith, Bool-cases, ap, subst, ◌∙◌,
}
use rive_cpp_legacy.Animation.Layer.{Transition, LayerState, Machine, random, has_flag}
use rive_cpp_legacy.Animation.Layer.Open.{
  IsOpen, WaitsAfter, some_wait, eligible-IsOpen, all_closed, waits_after,
}
use rive_cpp_legacy.Animation.Layer.Choice.{
  eligible, waits, weigh, pick, find_random_transition, find_first, find_allowed_transition,
}

-- A transition of the list.
pub data Among : Transition → List Transition → Type 0 where
  here : {t : Transition} {ts : List Transition} → Among t (t ∷ ts)
  there : {t u : Transition} {ts : List Transition} → Among t ts → Among t (u ∷ ts)

module _ (machine : Machine) (from : LayerState) (inst : machine.Inst)
    (ignore_triggers : Bool) where
  open machine use {Float, World, weight_gt, weight_sum, weight_sum-zero, weight_gt-start}

  module _ (current : Option ℕ) (world : World) where
    abbrev IsEligible : Transition → Type 0
    IsEligible t = eligible machine from inst ignore_triggers current world t ≡ true

    abbrev some_wait' : List Transition → Bool
    some_wait' = some_wait machine from inst ignore_triggers current world

    -- The first eligible transition of the list.
    abbrev Found : Transition → List Transition → Bool → Bool → Type 0
    Found t ts waiting waiting' =
        (before : List Transition) × (after : List Transition) × (ts ≡ before ++ t ∷ after)
        × All (λ u. eligible machine from inst ignore_triggers current world u ≡ false) before
        × (eligible machine from inst ignore_triggers current world t ≡ true)
        × (waiting' ≡ (waiting || some_wait' before))

    or_assoc : (a b c : Bool) → ((a || b) || c) ≡ (a || (b || c))
    or_assoc true b c = refl
    or_assoc false b c = refl

    or_false : (a : Bool) → a ≡ (a || false)
    or_false true = refl
    or_false false = refl

    find_first-Found :
        (ts : List Transition) (t : Transition) (waiting waiting' : Bool)
        → find_first machine from inst ignore_triggers current world ts waiting ≡ (some t, waiting')
        → Found t ts waiting waiting'
    unfolding find_first
    find_first-Found [] t waiting waiting' found = cc
    find_first-Found (u ∷ ts) t waiting waiting' found =
        elim (Bool-cases (eligible machine from inst ignore_triggers current world u)) [
          | inl yes' ↦ (
            [],
            ts,
            ground (arith, yes'),
            tt,
            ground (arith, yes'),
            ground (arith, yes', or_false waiting),
          )
          | inr no' ↦
              let waits' = waits machine from inst ignore_triggers world u in
              let (before, after, e, none_before, is, w) =
                find_first-Found ts t (waiting || waits') waiting' (ground (arith, no')) in
              (
                u ∷ before,
                after,
                ap (λ us. u ∷ us) e,
                (no', none_before),
                is,
                w ∙ or_assoc waiting waits' (some_wait' before),
              )
        ]

    -- A weight that is not 0 belongs to an eligible transition.
    abbrev Weighted : (Transition → Type 0) → ℕ × Transition → Type 0
    Weighted P (weight, t) =
        (weight ≡ 0) ⊎ ((eligible machine from inst ignore_triggers current world t ≡ true) × P t)

    weigh-All :
        (P : Transition → Type 0) (ts : List Transition) (total : ℕ) (waiting : Bool)
        → All P ts
        → All
            (Weighted P)
            (weigh machine from inst ignore_triggers current world ts total waiting).0
    unfolding weigh
    weigh-All P [] total waiting ps = tt
    weigh-All P (t ∷ ts) total waiting (p, ps) =
        elim (Bool-cases (eligible machine from inst ignore_triggers current world t)) [
          | inl yes' ↦ (inr (yes', p), weigh-All P ts _ _ ps)
          | inr no' ↦ (inl (ground (arith, no')), weigh-All P ts _ _ ps)
        ]

    pick-All :
        (P : Transition → Type 0) (ws : List (ℕ × Transition)) (t : Transition) (sum : Float)
        (draw total : ℕ)
        → All (Weighted P) ws
        → weight_gt sum draw total ≡ false
        → pick machine from inst ignore_triggers ws sum draw total ≡ some t
        → (eligible machine from inst ignore_triggers current world t ≡ true) × P t
    unfolding pick
    pick-All P [] t sum draw total ws low found = cc
    pick-All P ((weight, u) ∷ ws) t sum draw total (p, ps) low found =
        elim (Bool-cases (weight_gt (weight_sum sum weight) draw total)) [
          | inl above ↦ elim p [
            | inl nothing ↦ ground (arith, weight_sum-zero sum, nothing, above)
            | inr is ↦
                subst
                  (λ v. (eligible machine from inst ignore_triggers current world v ≡ true) × P v)
                  (ground (arith, above)) is
          ]
          | inr below ↦
              pick-All P ws t (weight_sum sum weight) draw total ps below (ground (arith, below))
        ]

    Among-All : (ts : List Transition) → All (λ t. Among t ts) ts
    Among-All ts = all_of ts (λ t m. m)
      where
        all_of :
            {P : Transition → Type 0} (us : List Transition)
            → ((t : Transition) → Among t us → P t)
            → All P us
        all_of [] f = tt
        all_of (u ∷ us) f = (f u here, all_of us (λ t m. f t (there m)))

    find_random_transition-Among :
        (t : Transition) (waiting : Bool) (rest : Bool × World)
        → find_random_transition machine from inst ignore_triggers current waiting world
          ≡ (some t, rest)
        → (eligible machine from inst ignore_triggers current world t ≡ true)
          × Among t from.transitions
    unfolding find_random_transition
    find_random_transition-Among t waiting rest found =
        let weighed =
          weigh machine from inst ignore_triggers current world from.transitions 0 waiting in
        let draw = (machine.rand world).0 in
        pick-All (λ u. Among u from.transitions) weighed.0 t (machine.of_ℕ 0) draw weighed.1.0
          (weigh-All (λ u. Among u from.transitions) from.transitions 0 waiting
            (Among-All from.transitions))
          (weight_gt-start draw weighed.1.0) (ground arith)

    Among-append :
        (before : List Transition) {t : Transition} (after : List Transition)
        → Among t (before ++ t ∷ after)
    Among-append [] after = here
    Among-append (u ∷ before) after = there (Among-append before after)

    -- The transition that findAllowedTransition returns, at random or not, is one of the state's;
    -- it is allowed, and it leads to another state than the current one.
    pub find_allowed_transition-Among :
        (t : Transition) (waiting : Bool) (rest : Bool × World)
        → find_allowed_transition machine from inst ignore_triggers current waiting world
          ≡ (some t, rest)
        → (eligible machine from inst ignore_triggers current world t ≡ true)
          × Among t from.transitions
    unfolding find_allowed_transition
    find_allowed_transition-Among t waiting rest found =
        elim (Bool-cases (has_flag from.flags random)) [
          | inl is_random ↦ find_random_transition-Among t waiting rest (ground (arith, is_random))
          | inr ordered ↦
              let (before, after, e, none_before, is, w) =
                find_first-Found from.transitions t waiting rest.0 (ground (arith, ordered)) in
              (is, rw e (Among-append before after))
        ]

    find_first-none :
        (ts : List Transition) (waiting waiting' : Bool)
        → find_first machine from inst ignore_triggers current world ts waiting ≡ (none, waiting')
        → All (λ u. eligible machine from inst ignore_triggers current world u ≡ false) ts
          × (waiting' ≡ (waiting || some_wait' ts))
    unfolding find_first
    find_first-none [] waiting waiting' found = (tt, ground (arith, or_false waiting))
    find_first-none (u ∷ ts) waiting waiting' found =
        elim (Bool-cases (eligible machine from inst ignore_triggers current world u)) [
          | inl yes' ↦ absurd (ground (arith, yes'))
          | inr no' ↦
              let waits' = waits machine from inst ignore_triggers world u in
              let (rest, w) =
                find_first-none ts (waiting || waits') waiting' (ground (arith, no')) in
              ((no', rest), w ∙ or_assoc waiting waits' (some_wait' ts))
        ]

    -- The first open transition of the list, and m_waitingForExit behind the ones before it.
    abbrev pub IsFirst : Transition → List Transition → Bool → Bool → Type 0
    IsFirst t ts waiting waiting' =
        (before : List Transition) × (after : List Transition) × (ts ≡ before ++ t ∷ after)
        × All (λ u. ¬ IsOpen machine from inst ignore_triggers current world u) before
        × IsOpen machine from inst ignore_triggers current world t
        × WaitsAfter machine from inst ignore_triggers current world waiting waiting' before

    Found-IsFirst :
        (t : Transition) (ts : List Transition) (waiting waiting' : Bool)
        → Found t ts waiting waiting'
        → IsFirst t ts waiting waiting'
    Found-IsFirst t ts waiting waiting' (before, after, e, none_before, is, w) = (
      before,
      after,
      e,
      all_closed machine from inst ignore_triggers current world before none_before,
      eligible-IsOpen machine from inst ignore_triggers current world t is,
      waits_after machine from inst ignore_triggers current world waiting waiting' before w,
    )

    -- Of a state that does not choose at random, findAllowedTransition returns the first transition
    -- that `allowed` grants and that leads to another state than the current one, and null only if
    -- there is none; m_waitingForExit is true behind it just if it was true or `allowed` makes one
    -- of the transitions before that one wait for its exit time.
    pub find_allowed_transition-IsFirst :
        (waiting : Bool) (found : Option Transition) (waiting' : Bool) (world' : World)
        → has_flag from.flags random ≡ false
        → find_allowed_transition machine from inst ignore_triggers current waiting world
          ≡ (found, (waiting', world'))
        → (world' ≡ world)
          × (((t : Transition) × (found ≡ some t) × IsFirst t from.transitions waiting waiting')
              ⊎ ((found ≡ none)
                  × All
                      (λ u. ¬ IsOpen machine from inst ignore_triggers current world u)
                      from.transitions
                  × WaitsAfter machine from inst ignore_triggers current world waiting waiting'
                      from.transitions))
    unfolding find_allowed_transition
    find_allowed_transition-IsFirst waiting none waiting' world' ordered e =
        let ts = from.transitions in
        let (none_is, w) = find_first-none ts waiting waiting' (ground (arith, ordered)) in
        (
          ground (arith, ordered),
          inr (
            refl,
            all_closed machine from inst ignore_triggers current world ts none_is,
            waits_after machine from inst ignore_triggers current world waiting waiting' ts w,
          ),
        )
    find_allowed_transition-IsFirst waiting (some t) waiting' world' ordered e = (
      ground (arith, ordered),
      inl (
        t,
        refl,
        Found-IsFirst t from.transitions waiting waiting'
            (find_first-Found from.transitions t waiting waiting' (ground (arith, ordered))),
      ),
    )
