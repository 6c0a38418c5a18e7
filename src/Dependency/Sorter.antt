-- ===== src/Dependency/Sorter.antt =====
-- DependencySorter (src/dependency_sorter.cpp). A component is its number and `dependents()` a
-- function of it; the two sets of pointers are lists.
pub mod Topological
pub mod Cycle
pub mod Ends
use rive_cpp_legacy.Prelude.{
  contains, ℕ, zero, suc, Bool, true, false, ◌||◌, List, [], ◌∷◌, Option, none, some, ◌==◌,
  if◌then◌else◌,
}

abbrev pub Graph : Type 0
Graph = ℕ → List ℕ

-- `emplace` in a set.
abbrev pub emplace : ℕ → List ℕ → List ℕ
emplace x xs = if contains xs x then xs else x ∷ xs

pub record Sorter : Type 0 where
  pub perm : List ℕ
  pub temp : List ℕ
  pub order : List ℕ

-- The answer of `visit` and the state it leaves; `none` says that the fuel ran out.
abbrev pub Answer : Type 0
Answer = Option (Bool × Sorter)

-- The loop over the dependents, which stops at the first that fails.
unfoldable pub visit_each : (ℕ → Sorter → Answer) → List ℕ → Sorter → Answer
visit_each visit [] s = some (true, s)
visit_each visit (d ∷ ds) s = elim (visit d s) [
  | none ↦ none
  | some (false, t) ↦ some (false, t)
  | some (true, t) ↦ visit_each visit ds t
]

-- `m_Perm.emplace` and the insertion at the front, once the dependents are done.
unfoldable pub finish : ℕ → Answer → Answer
finish c none = none
finish c (some (false, s)) = some (false, s)
finish c (some (true, s)) = some (true, record s { perm = emplace c s.perm; order = c ∷ s.order })

module _ (dependents : Graph) where
  unfoldable pub visit : ℕ → ℕ → Sorter → Answer
  visit zero c s = none
  visit (suc fuel) c s =
      let below =
        finish c (visit_each (visit fuel) (dependents c) (record s { temp = emplace c s.temp })) in
      if contains s.perm c
      then some (true, s)
      else if contains s.temp c
      then some (false, s)
      else below

  -- The two `sort`s start from `order.clear()` and use no answer of `visit`.
  unfoldable pub sort : ℕ → ℕ → Sorter → Option Sorter
  sort fuel root s = elim (visit fuel root (record s { order = [] })) [
    | none ↦ none
    | some (found, t) ↦ some t
  ]

  pub visit_roots : ℕ → List ℕ → Sorter → Option Sorter
  visit_roots fuel [] s = some s
  visit_roots fuel (root ∷ roots) s = elim (visit fuel root s) [
    | none ↦ none
    | some (found, t) ↦ visit_roots fuel roots t
  ]

  pub sort_roots : ℕ → List ℕ → Sorter → Option Sorter
  unfolding visit_roots
  sort_roots fuel roots s = visit_roots fuel roots (record s { order = [] })

-- A new sorter.
abbrev pub fresh : Sorter
fresh = record { perm = []; temp = []; order = [] }
