-- ===== src/Components/Dirt/AddDirt.antt =====
-- addDirt (src/component.cpp) with its recursion over the dependents.
use rive_cpp_legacy.Prelude.{
  ℕ, zero, suc, ◌<◌, ◌≡◌, ◌≢◌, refl, sym, subst, inl, inr, Bool, true, false, List, [], ◌∷◌, some,
  arith, Bool-cases, ==_iff, ◌==◌, All, contains,
}
use native.Mathlib.Decide.{ℕ_discrete}
use rive_cpp_legacy.Components.Dirt.{Dirt, Graph, has_dirt, add_dirt_each, mark, add_dirt}
use rive_cpp_legacy.Components.Dirt.Spread.{
  IsPlain, Has, Adds, mark-Adds, mark-Has, mark-others, PassedOn, All-Adds, PassedOn-trans, lacking,
  lacking-lt, lacking-le,
}

module _ (graph : Graph) (value n : ℕ) where
  open graph use {root, dependents}

  -- The state `t` has the value at all of `ds`, and whoever received it has passed it on.
  abbrev pub Spread : List ℕ → Dirt → Dirt → Type 0
  Spread ds s t = All (λ d. Has t d value) ds × Adds s t × PassedOn graph value s t

  abbrev AreBelow : List ℕ → Type 0
  AreBelow = All (λ d. d < n)

  -- The dependents are numbered below `n`, as the components are.
  abbrev pub IsNumbered : Type 0
  IsNumbered = (x : ℕ) → x < n → AreBelow (dependents x)

  abbrev Adder : ℕ → Type 0
  Adder fuel =
      (c : ℕ) (s : Dirt)
      → c < n
      → lacking graph value n s < fuel
      → (changed : Bool) × (t : Dirt) × (add_dirt graph fuel c value true s ≡ some (changed, t))
        × Spread (c ∷ []) s t

  add_dirt_each-Spread :
      (fuel : ℕ)
      → Adder fuel
      → (ds : List ℕ) (s : Dirt) → AreBelow ds
      → lacking graph value n s < fuel
      → (t : Dirt) × (add_dirt_each (λ d u. add_dirt graph fuel d value true u) ds s ≡ some t)
        × Spread ds s t
  unfolding add_dirt_each
  add_dirt_each-Spread fuel ih [] s below h = (s, refl, (tt, (λ x w k. k), (λ x away k. inl k)))
  add_dirt_each-Spread fuel ih (d ∷ ds) s (less, below) h =
      let (changed, t, e, ((has, _), adds, passed)) = ih d s less h in
      let (u, e', (all, adds', passed')) =
        add_dirt_each-Spread fuel ih ds t below
          (omega (arith, lacking-le graph value n s t adds)) in
      (
        u,
        rw (e, add_dirt_each) e',
        (
          (adds' d value has, all),
          (λ x w k. adds' x w (adds x w k)),
          PassedOn-trans graph value s t u adds' passed passed',
        ),
      )

  already :
      (fuel c : ℕ) (s : Dirt)
      → has_dirt (s.dirt c) value ≡ true
      → add_dirt graph (suc fuel) c value true s ≡ some (false, s)
  unfolding add_dirt
  already fuel c s has = rw has refl

  marked :
      (fuel c : ℕ) (s t : Dirt)
      → has_dirt (s.dirt c) value ≡ false
      → add_dirt_each
          (λ d u. add_dirt graph fuel d value true u)
          (dependents c)
          (mark graph c value s)
        ≡ some t
      → add_dirt graph (suc fuel) c value true s ≡ some (true, t)
  unfolding add_dirt
  marked fuel c s t lacks e = rw (lacks, e) refl

  -- Where no component but the artboard overrides `onDirty`, and with more fuel than components
  -- that lack the value, addDirt with `recurse` returns. The
  -- component then has the value, no component has lost any dirt, and every component but the
  -- artboard that has the value and did not have it before has passed it on to all its dependents.
  pub add_dirt-Spread : IsPlain graph → IsNumbered → (fuel : ℕ) → Adder fuel
  add_dirt-Spread plain numbered zero c s less h = elim h [ ]
  add_dirt-Spread plain numbered (suc fuel) c s less h =
      elim (Bool-cases (has_dirt (s.dirt c) value)) [
        | inl has ↦ (
          false,
          s,
          already fuel c s has,
          (((==_iff _ value).0 has, tt), (λ x w k. k), (λ x away k. inl k)),
        )
        | inr lacks ↦
            let s1 = mark graph c value s in
            let adds1 = mark-Adds graph plain c value s in
            let has1 = mark-Has graph plain c value s in
            let (t, e, (all, adds, passed)) =
              add_dirt_each-Spread fuel (add_dirt-Spread plain numbered fuel) (dependents c) s1
                (numbered c less)
                (omega (arith, lacking-lt graph value n s s1 c adds1 less lacks has1)) in
            (
              true,
              t,
              marked fuel c s t lacks e,
              (
                (adds c value has1, tt),
                (λ x w k. adds x w (adds1 x w k)),
                passed_on c s t all passed,
              ),
            )
      ]
    where
      passed_on :
          (c : ℕ) (s t : Dirt)
          → All (λ d. Has t d value) (dependents c)
          → PassedOn graph value (mark graph c value s) t
          → PassedOn graph value s t
      passed_on c s t all passed x away k = elim (passed x away k) [
        | inr done ↦ inr done
        | inl before ↦ elim (ℕ_discrete x c) [
          | yes e ↦ inr (subst (λ y. All (λ d. Has t d value) (dependents y)) (sym e) all)
          | no other ↦ inl (
              subst (λ d. Has (record s { dirt = λ y. d }) x value)
                (mark-others graph plain c value s x away other) before)
        ]
      ]

  -- The dependents of a component, and theirs, without the artboard between.
  pub data Below (c : ℕ) : ℕ → Type 0 where
    itself : Below c c
    under : {x d : ℕ} → Below c x → x ≢ root → contains (dependents x) d ≡ true → Below c d

  All-contains :
      (t : Dirt) (ds : List ℕ) (d : ℕ)
      → All (λ e. Has t e value) ds
      → contains ds d ≡ true
      → Has t d value
  All-contains t [] d all h = cc
  All-contains t (e ∷ ds) d (has, all) h = elim (Bool-cases (d == e)) [
    | inl same ↦ subst (λ y. Has t y value) (sym ((==_iff d e).0 same)) has
    | inr other ↦ All-contains t ds d all (ground (arith, other, h))
  ]

  -- Outside the artboard, all dependents of a component that has the value have it too.
  abbrev pub IsWhole : Dirt → Type 0
  IsWhole s = (x : ℕ) → x ≢ root → Has s x value → All (λ d. Has s d value) (dependents x)

  passed-IsWhole : (s t : Dirt) → Adds s t → PassedOn graph value s t → IsWhole s → IsWhole t
  passed-IsWhole s t adds passed whole x away has = elim (passed x away has) [
    | inl before ↦ All-Adds graph value s t (dependents x) adds (whole x away before)
    | inr done ↦ done
  ]

  -- Where no component but the artboard overrides `onDirty`, a recursive addDirt returns, with recursion no deeper than there are components that lack the
  -- value. Where the dependents of all components but the artboard that had the value had it too,
  -- this holds afterwards as well, and all that depends on the component has the value, through
  -- any chain that does not pass the artboard. No component has lost any dirt.
  pub add_dirt_reaches :
      IsPlain graph
      → IsNumbered
      → (fuel c : ℕ) (s : Dirt) → c < n
      → lacking graph value n s < fuel
      → IsWhole s
      → (changed : Bool) × (t : Dirt) × (add_dirt graph fuel c value true s ≡ some (changed, t))
        × ((d : ℕ) → Below c d → Has t d value)
        × IsWhole t
        × Adds s t
  add_dirt_reaches plain numbered fuel c s less h whole =
      let (changed, t, e, ((has, _), adds, passed)) =
        add_dirt-Spread plain numbered fuel c s less h in
      let kept = passed-IsWhole s t adds passed whole in
      (changed, t, e, reaches t has kept, kept, adds)
    where
      reaches : (t : Dirt) → Has t c value → IsWhole t → (d : ℕ) → Below c d → Has t d value
      reaches t has kept d itself = has
      reaches t has kept d (under {x} b away among) =
          All-contains t (dependents x) d (kept x away (reaches t has kept x b)) among
