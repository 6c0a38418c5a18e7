-- ===== src/Dependency/Sorter/Ends.antt =====
-- The recursion of `visit` is no deeper than the number of components, and what `sort` returns.
use rive_cpp_legacy.Prelude.{
  contains, ℕ, zero, suc, ◌+◌, ◌≤◌, ◌<◌, true, false, ◌≡◌, ◌≢◌, refl, ◌⊎◌, inl, inr, ◌↔◌, List, [],
  ◌∷◌, none, some, if◌then◌else◌, arith, Bool-cases, ℕ_discrete,
}
use rive_cpp_legacy.Dependency.Sorter.{
  Graph, emplace, Sorter, visit_each, visit, finish, sort, fresh, Answer,
}
use rive_cpp_legacy.Dependency.Sorter.Topological.{
  Ordered, IsTopological, visit-Grows, Answer-cases, contains-emplace,
}
use rive_cpp_legacy.Dependency.Sorter.Cycle.{Depends, edge, more, visit-Cyclic, visit-Only}

-- The components below `n` that are not in a set.
unmarked_below : ℕ → List ℕ → ℕ
unmarked_below zero xs = 0
unmarked_below (suc n) xs = (if contains xs n then 0 else 1) + unmarked_below n xs

unmarked_below-le : (n : ℕ) (xs : List ℕ) → unmarked_below n xs ≤ n
unfolding unmarked_below
unmarked_below-le zero xs = omega arith
unmarked_below-le (suc n) xs = ground (arith, unmarked_below-le n xs)

unmarked_below_mono :
    (n : ℕ) (xs ys : List ℕ)
    → ((x : ℕ) → contains xs x ≡ true → contains ys x ≡ true)
    → unmarked_below n ys ≤ unmarked_below n xs
unfolding unmarked_below
unmarked_below_mono zero xs ys h = omega arith
unmarked_below_mono (suc n) xs ys h = ground (arith, h n, unmarked_below_mono n xs ys h)

unmarked_below-emplace :
    (n c : ℕ) (xs : List ℕ)
    → c < n
    → contains xs c ≡ false
    → suc (unmarked_below n (emplace c xs)) ≤ unmarked_below n xs
unfolding unmarked_below
unmarked_below-emplace zero c xs h k = absurd (omega arith)
unmarked_below-emplace (suc n) c xs h k = ground (
  arith,
  ℕ_discrete c n,
  contains-emplace c xs n,
  unmarked_below_mono n xs (emplace c xs) (λ x p. ground (arith, contains-emplace c xs x)),
  unmarked_below-emplace n c xs,
)

module _ (g : Graph) (n : ℕ) (inside : (c d : ℕ) → c < n → contains (g c) d ≡ true → d < n) where
  visit_each_ends :
      (fuel : ℕ)
      → ((c : ℕ) (s : Sorter)
          → c < n
          → Ordered g s
          → unmarked_below n s.temp < fuel
          → visit g fuel c s ≢ none)
      → (ds : List ℕ) (s : Sorter) → ((d : ℕ) → contains ds d ≡ true → d < n)
      → Ordered g s
      → unmarked_below n s.temp < fuel
      → visit_each (visit g fuel) ds s ≢ none
  unfolding visit_each
  visit_each_ends fuel ih [] s below o h e = cc
  visit_each_ends fuel ih (d ∷ ds) s below o h e = elim (Answer-cases (visit g fuel d s)) [
    | inl out ↦ ih d s (below d (ground arith)) o h out
    | inr (inl (u, fails)) ↦ ground (arith, fails)
    | inr (inr (u, found)) ↦
        let (grows, in_u) = visit-Grows g fuel d s u o found in
        let fewer = unmarked_below_mono n s.temp u.temp grows.marked in
        visit_each_ends fuel ih ds u (λ x k. below x (ground (arith, k))) grows.ordered
          (omega arith) (ground (arith, found))
  ]

  finish_ends : (c : ℕ) (a : Answer) → finish c a ≡ none → a ≡ none
  unfolding finish
  finish_ends c none e = refl
  finish_ends c (some (false, t)) e = cc
  finish_ends c (some (true, t)) e = cc

  visit_ends :
      (fuel c : ℕ) (s : Sorter)
      → c < n
      → Ordered g s
      → unmarked_below n s.temp < fuel
      → visit g fuel c s ≢ none
  unfolding visit
  visit_ends zero c s k o h e = absurd (omega arith)
  visit_ends (suc fuel) c s k o h e = elim (Bool-cases (contains s.perm c)) [
    | inl old ↦ ground (arith, old)
    | inr new ↦ elim (Bool-cases (contains s.temp c)) [
      | inl open' ↦ ground (arith, new, open')
      | inr unmarked ↦
          let s' = record s { temp = emplace c s.temp } in
          let o' : Ordered g s' = record {
            sets = o.sets;
            sorted = o.sorted;
            visited = λ x p. ground (arith, contains-emplace c s.temp x, o.visited x);
          } in
          let fewer = unmarked_below-emplace n c s.temp k unmarked in
          visit_each_ends fuel (visit_ends fuel) (g c) s' (λ d. inside c d k) o' (omega arith)
            (finish_ends c (visit_each (visit g fuel) (g c) s') (ground (arith, new, unmarked)))
    ]
  ]

  fresh-Ordered : Ordered g fresh
  fresh-Ordered = record { sets = refl; sorted = tt; visited = λ x h. h }

  topological_closed :
      (order : List ℕ) (x : ℕ)
      → IsTopological g order
      → contains order x ≡ true
      → (d : ℕ) → contains (g x) d ≡ true
      → contains order d ≡ true
  topological_closed [] x t h d k = cc
  topological_closed (c ∷ rest) x t h d k = elim (ℕ_discrete x c) [
    | yes same ↦ ground (arith, t.0 d (ground arith))
    | no other ↦ ground (arith, topological_closed rest x t.2 (ground arith) d k)
  ]

  Depends-closed :
      (order : List ℕ) {x y : ℕ}
      → IsTopological g order
      → contains order x ≡ true
      → Depends g x y
      → contains order y ≡ true
  Depends-closed order {x} t h (edge k) = topological_closed order x t h _ k
  Depends-closed order t h (more {y} p k) =
      topological_closed order y t (Depends-closed order t h p) _ k

  -- Where the components are numbered below `n` and none depends on itself, `sort` by a new sorter
  -- returns an order in which each component stands once and before all its dependents, and which
  -- has the root and exactly what depends on it. Recursion to depth n + 1 is enough.
  pub sort-IsTopological :
      (root : ℕ)
      → root < n
      → ((x : ℕ) → ¬ Depends g x x)
      → (t : Sorter) × (sort g (suc n) root fresh ≡ some t)
        × IsTopological g t.order
        × ((x : ℕ) → (contains t.order x ≡ true) ↔ ((x ≡ root) ⊎ Depends g root x))
  unfolding sort
  sort-IsTopological root k acyclic = elim (Answer-cases (visit g (suc n) root fresh)) [
    | inl out ↦
        absurd (
          visit_ends (suc n) root fresh k fresh-Ordered (omega (arith, unmarked_below-le n [])) out)
    | inr (inl (u, fails)) ↦
        let (x, loop) = visit-Cyclic g (suc n) root fresh u fresh-Ordered (λ x h. cc) fails in
        absurd (acyclic x loop)
    | inr (inr (u, found)) ↦
        let (grows, in_u) = visit-Grows g (suc n) root fresh u fresh-Ordered found in
        (
          u,
          rw (found, sort),
          grows.ordered.sorted,
          λ x. (
            λ h. elim (visit-Only g (suc n) root fresh u found x h) [ inl old ↦ cc | inr r ↦ r ],
            λ r. elim r [
              | inl same ↦ rw same in_u
              | inr dep ↦ Depends-closed u.order grows.ordered.sorted in_u dep
            ],
          ),
        )
  ]
