-- ===== src/Dependency/Sorter/Topological.antt =====
-- The order that `visit` builds.
use rive_cpp_legacy.Prelude.{
  contains, ℕ, zero, suc, true, false, ◌||◌, ◌≡◌, refl, ◌⊎◌, inl, inr, List, [], ◌∷◌, none, some,
  ◌==◌, arith, Bool-cases,
}
use rive_cpp_legacy.Dependency.Sorter.{Graph, emplace, Sorter, visit_each, visit, finish, Answer}

-- Every component stands before all its dependents, and once.
abbrev pub IsTopological : Graph → List ℕ → Type 0
IsTopological g [] = Unit {0}
IsTopological g (c ∷ rest) =
    ((d : ℕ) → contains (g c) d ≡ true → contains rest d ≡ true)
    × (contains rest c ≡ false)
    × IsTopological g rest

-- What holds between the calls, and what a call that answers yes has done from `s` to `t`.
pub record Ordered (g : Graph) (s : Sorter) : Type 0 where
  pub sets : s.perm ≡ s.order
  pub sorted : IsTopological g s.order
  pub visited : (x : ℕ) → contains s.order x ≡ true → contains s.temp x ≡ true

pub record Grows (g : Graph) (s t : Sorter) : Type 0 where
  pub ordered : Ordered g t
  pub kept : (x : ℕ) → contains s.order x ≡ true → contains t.order x ≡ true
  pub marked : (x : ℕ) → contains s.temp x ≡ true → contains t.temp x ≡ true
  -- What is marked is either in the order or was marked before, and stays out if it was out.
  pub closed :
      (x : ℕ) → contains t.temp x ≡ true → (contains s.temp x ≡ true) ⊎ (contains t.order x ≡ true)
  pub open_out :
      (x : ℕ) → contains s.temp x ≡ true → contains s.order x ≡ false → contains t.order x ≡ false

pub contains-emplace :
    (c : ℕ) (xs : List ℕ) (x : ℕ) → contains (emplace c xs) x ≡ (x == c || contains xs x)
contains-emplace c xs x = elim (Bool-cases (contains xs c)) [
  | inl old ↦ ground (arith, old)
  | inr new ↦ ground (arith, new)
]

pub Answer-cases :
    (a : Answer)
    → (a ≡ none) ⊎ (((t : Sorter) × (a ≡ some (false, t))) ⊎ ((t : Sorter) × (a ≡ some (true, t))))
Answer-cases none = inl refl
Answer-cases (some (false, t)) = inr (inl (t, refl))
Answer-cases (some (true, t)) = inr (inr (t, refl))

-- A visit that ends well has visited the dependents well.
pub finish_cases :
    (c : ℕ) (a : Answer) (t : Sorter)
    → finish c a ≡ some (true, t)
    → (u : Sorter) × (a ≡ some (true, u))
      × (t ≡ record u { perm = emplace c u.perm; order = c ∷ u.order })
unfolding finish
finish_cases c none t e = cc
finish_cases c (some (false, u)) t e = ground arith
finish_cases c (some (true, u)) t e = (u, refl, ground arith)

module _ (g : Graph) where
  Grows-refl : (s : Sorter) → Ordered g s → Grows g s s
  Grows-refl s o = record {
    ordered = o;
    kept = λ x h. h;
    marked = λ x h. h;
    closed = λ x h. inl h;
    open_out = λ x h k. k;
  }

  pub Grows-trans : (s t u : Sorter) → Grows g s t → Grows g t u → Grows g s u
  Grows-trans s t u a b = record {
    ordered = b.ordered;
    kept = λ x h. b.kept x (a.kept x h);
    marked = λ x h. b.marked x (a.marked x h);
    closed = λ x h. ground (arith, a.closed x, b.closed x h, b.kept x);
    open_out = λ x h k. b.open_out x (a.marked x h) (a.open_out x h k);
  }

  -- The recursive call, as a hypothesis.
  abbrev pub VisitsWell : (ℕ → Sorter → Answer) → Type 0
  VisitsWell v =
      (c : ℕ) (s t : Sorter)
      → Ordered g s
      → v c s ≡ some (true, t)
      → Grows g s t × (contains t.order c ≡ true)

  visit_each-Grows :
      (v : ℕ → Sorter → Answer)
      → VisitsWell v
      → (ds : List ℕ) (s t : Sorter) → Ordered g s
      → visit_each v ds s ≡ some (true, t)
      → Grows g s t × ((d : ℕ) → contains ds d ≡ true → contains t.order d ≡ true)
  unfolding visit_each
  visit_each-Grows v ok [] s t o e =
      let same : s ≡ t = ground arith in rw (← same) (Grows-refl s o, λ d h. cc)
  visit_each-Grows v ok (d ∷ ds) s t o e = elim (Answer-cases (v d s)) [
    | inl out ↦ ground (arith, out)
    | inr (inl (u, fails)) ↦ ground (arith, fails)
    | inr (inr (u, found)) ↦
        let (first, in_u) = ok d s u o found in
        let (later, in_t) = visit_each-Grows v ok ds u t first.ordered (ground (arith, found)) in
        (Grows-trans s u t first later, λ x h. ground (arith, in_t x, later.kept x))
  ]

  -- The last step of a visit, on the state `u` that the dependents left.
  finish-Grows :
      (c : ℕ) (s u : Sorter)
      → contains s.order c ≡ false
      → contains s.temp c ≡ false
      → Grows g (record s { temp = emplace c s.temp }) u
      → ((d : ℕ) → contains (g c) d ≡ true → contains u.order d ≡ true)
      → Grows g s (record u { perm = emplace c u.perm; order = c ∷ u.order })
  finish-Grows c s u out unmarked d below = record {
    ordered = record {
      sets = ground (arith, d.ordered.sets, new);
      sorted = (below, new, d.ordered.sorted);
      visited = λ x h. ground (arith, d.ordered.visited x, here);
    };
    kept = λ x h. ground (arith, d.kept x);
    marked = λ x h. d.marked x (ground (arith, contains-emplace c s.temp x));
    closed = λ x h. ground (arith, d.closed x h, contains-emplace c s.temp x);
    open_out = λ x h k. ground (arith, d.open_out x, contains-emplace c s.temp x);
  }
    where
      self : contains (emplace c s.temp) c ≡ true
      self = ground (arith, contains-emplace c s.temp c)

      here : contains u.temp c ≡ true
      here = d.marked c self

      new : contains u.order c ≡ false
      new = d.open_out c self out

  pub visit-Grows : (fuel : ℕ) → VisitsWell (visit g fuel)
  unfolding visit
  visit-Grows zero c s t o e = cc
  visit-Grows (suc fuel) c s t o e = elim (Bool-cases (contains s.perm c)) [
    | inl old ↦
        let same : s ≡ t = ground (arith, old) in
        rw (← same) (Grows-refl s o, ground (arith, o.sets))
    | inr new ↦ elim (Bool-cases (contains s.temp c)) [
      | inl open' ↦ ground (arith, new, open')
      | inr unmarked ↦
          let s' = record s { temp = emplace c s.temp } in
          let (u, called, ends) =
            finish_cases c (visit_each (visit g fuel) (g c) s') t (ground (arith, new, unmarked)) in
          let o' : Ordered g s' = record {
            sets = o.sets;
            sorted = o.sorted;
            visited = λ x h. ground (arith, contains-emplace c s.temp x, o.visited x);
          } in
          let (grows, below) =
            visit_each-Grows (visit g fuel) (visit-Grows fuel) (g c) s' u o' called in
          let out : contains s.order c ≡ false = ground (arith, o.sets) in
          rw ends (finish-Grows c s u out unmarked grows below, ground arith)
    ]
  ]
