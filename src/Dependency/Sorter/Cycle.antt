-- ===== src/Dependency/Sorter/Cycle.antt =====
-- A visit that fails has met a cycle, and what a visit puts in order depends on its component.
use rive_cpp_legacy.Prelude.{
  contains, ℕ, zero, suc, true, false, ◌≡◌, ◌⊎◌, inl, inr, List, [], ◌∷◌, none, some, arith,
  Bool-cases, ℕ_discrete,
}
use rive_cpp_legacy.Dependency.Sorter.{Graph, emplace, Sorter, visit_each, visit, finish, Answer}
use rive_cpp_legacy.Dependency.Sorter.Topological.{
  Ordered, Grows, visit-Grows, Answer-cases, finish_cases, contains-emplace,
}

-- `y` is a dependent of `x`, directly or through others.
pub data Depends (g : Graph) (x : ℕ) : ℕ → Type 0 where
  edge : {y : ℕ} → contains (g x) y ≡ true → Depends g x y
  more : {y z : ℕ} → Depends g x y → contains (g y) z ≡ true → Depends g x z

pub extend : {g : Graph} {x y z : ℕ} → contains (g x) y ≡ true → Depends g y z → Depends g x z
extend h (edge k) = more (edge h) k
extend h (more p k) = more (extend h p) k

module _ (g : Graph) where
  -- The components under visit, marked and not yet in the order, all lead to `c`.
  abbrev pub Leads : Sorter → ℕ → Type 0
  Leads s c = (x : ℕ) → contains s.temp x ≡ true → contains s.order x ≡ false → Depends g x c

  abbrev Cyclic : Type 0
  Cyclic = (x : ℕ) × Depends g x x

  abbrev FailsOnCycle : (ℕ → Sorter → Answer) → Type 0
  FailsOnCycle v =
      (c : ℕ) (s t : Sorter) → Ordered g s → Leads s c → v c s ≡ some (false, t) → Cyclic

  Leads-step : (s u : Sorter) (d : ℕ) → Ordered g u → Grows g s u → Leads s d → Leads u d
  Leads-step s u d o grows leads x marked out =
      leads x (ground (arith, grows.closed x marked))
        (ground (arith, Bool-cases (contains s.order x), grows.kept x))

  visit_each-Cyclic :
      (fuel : ℕ)
      → FailsOnCycle (visit g fuel)
      → (ds : List ℕ) (s t : Sorter) → Ordered g s
      → ((d : ℕ) → contains ds d ≡ true → Leads s d)
      → visit_each (visit g fuel) ds s ≡ some (false, t)
      → Cyclic
  unfolding visit_each
  visit_each-Cyclic fuel ih [] s t o leads e = ground arith
  visit_each-Cyclic fuel ih (d ∷ ds) s t o leads e = elim (Answer-cases (visit g fuel d s)) [
    | inl out ↦ ground (arith, out)
    | inr (inl (u, fails)) ↦ ih d s u o (leads d (ground arith)) fails
    | inr (inr (u, found)) ↦
        let (grows, in_u) = visit-Grows g fuel d s u o found in
        visit_each-Cyclic fuel ih ds u t grows.ordered
          (λ x h. Leads-step s u x grows.ordered grows (leads x (ground (arith, h))))
          (ground (arith, found))
  ]

  finish_fails :
      (c : ℕ) (a : Answer) (t : Sorter) → finish c a ≡ some (false, t) → a ≡ some (false, t)
  unfolding finish
  finish_fails c none t e = cc
  finish_fails c (some (false, u)) t e = e
  finish_fails c (some (true, u)) t e = ground arith

  pub visit-Cyclic : (fuel : ℕ) → FailsOnCycle (visit g fuel)
  unfolding visit
  visit-Cyclic zero c s t o leads e = cc
  visit-Cyclic (suc fuel) c s t o leads e = elim (Bool-cases (contains s.perm c)) [
    | inl old ↦ ground (arith, old)
    | inr new ↦ elim (Bool-cases (contains s.temp c)) [
      | inl open' ↦ (c, leads c open' (ground (arith, o.sets)))
      | inr unmarked ↦
          let s' = record s { temp = emplace c s.temp } in
          let called =
            finish_fails c (visit_each (visit g fuel) (g c) s') t (ground (arith, new, unmarked)) in
          let o' : Ordered g s' = record {
            sets = o.sets;
            sorted = o.sorted;
            visited = λ x h. ground (arith, contains-emplace c s.temp x, o.visited x);
          } in
          visit_each-Cyclic fuel (visit-Cyclic fuel) (g c) s' t o'
            (λ d h x marked out. below x d h marked out) called
    ]
  ]
    where
      below :
          (x d : ℕ)
          → contains (g c) d ≡ true
          → contains (emplace c s.temp) x ≡ true
          → contains s.order x ≡ false
          → Depends g x d
      below x d h marked out = elim (ℕ_discrete x c) [
        | yes same ↦ rw same (edge h)
        | no other ↦ more (leads x (ground (arith, contains-emplace c s.temp x)) out) h
      ]

  -- Only what was in the order, the component itself and what depends on it is in the order.
  abbrev pub Only : ℕ → Sorter → Sorter → Type 0
  Only c s t =
      (x : ℕ) → contains t.order x ≡ true → (contains s.order x ≡ true) ⊎ ((x ≡ c) ⊎ Depends g c x)

  visit_each-Only :
      (v : ℕ → Sorter → Answer)
      → ((c : ℕ) (s t : Sorter) → v c s ≡ some (true, t) → Only c s t)
      → (c : ℕ) (ds : List ℕ) (s t : Sorter)
      → ((d : ℕ) → contains ds d ≡ true → contains (g c) d ≡ true)
      → visit_each v ds s ≡ some (true, t)
      → (x : ℕ) → contains t.order x ≡ true
      → (contains s.order x ≡ true) ⊎ Depends g c x
  unfolding visit_each
  visit_each-Only v ih c [] s t sub e x h = ground arith
  visit_each-Only v ih c (d ∷ ds) s t sub e x h = elim (Answer-cases (v d s)) [
    | inl out ↦ ground (arith, out)
    | inr (inl (u, fails)) ↦ ground (arith, fails)
    | inr (inr (u, found)) ↦
        elim (visit_each-Only v ih c ds u t (λ y k. sub y (ground (arith, k)))
          (ground (arith, found)) x h) [
            | inr dep ↦ inr dep
            | inl in_u ↦ elim (ih d s u found x in_u) [
              | inl in_s ↦ inl in_s
              | inr (inl same) ↦ inr (rw same (edge (sub d (ground arith))))
              | inr (inr dep) ↦ inr (extend (sub d (ground arith)) dep)
            ]
          ]
  ]

  pub visit-Only : (fuel c : ℕ) (s t : Sorter) → visit g fuel c s ≡ some (true, t) → Only c s t
  unfolding visit
  visit-Only zero c s t e x h = cc
  visit-Only (suc fuel) c s t e x h = elim (Bool-cases (contains s.perm c)) [
    | inl old ↦ ground (arith, old)
    | inr new ↦ elim (Bool-cases (contains s.temp c)) [
      | inl open' ↦ ground (arith, new, open')
      | inr unmarked ↦
          let s' = record s { temp = emplace c s.temp } in
          let (u, called, ends) =
            finish_cases c (visit_each (visit g fuel) (g c) s') t (ground (arith, new, unmarked)) in
          elim (ℕ_discrete x c) [
            | yes same ↦ inr (inl same)
            | no other ↦
                elim (visit_each-Only (visit g fuel) (visit-Only fuel) c (g c) s' u (λ d k. k)
                  called x (ground (arith, ends, h))) [
                    | inl in_s ↦ inl in_s
                    | inr dep ↦ inr (inr dep)
                  ]
          ]
    ]
  ]
