-- ===== src/Tests/Dependency.antt =====
-- The sorter on a small graph.
use rive_cpp_legacy.Prelude.{
  contains, ℕ, ◌<◌, ◌≡◌, refl, true, [], ◌∷◌, some, arith, ◌==◌, if◌then◌else◌, ◌↔◌, ◌⊎◌,
}
use rive_cpp_legacy.Dependency.Sorter.{Graph, Sorter, sort, visit, visit_each, finish, fresh}
use rive_cpp_legacy.Dependency.Sorter.Topological.{IsTopological}
use rive_cpp_legacy.Dependency.Sorter.Cycle.{Depends, edge, more}
use rive_cpp_legacy.Dependency.Sorter.Ends.{sort-IsTopological}

-- 0 → 1, 0 → 2 and 1 → 2.
abbrev diamond : Graph
diamond c = if c == 0 then 2 ∷ 1 ∷ [] else if c == 1 then 2 ∷ [] else []

sort-diamond :
    sort diamond 4 0 fresh
    ≡ some (record { perm = 0 ∷ 1 ∷ 2 ∷ []; temp = 1 ∷ 2 ∷ 0 ∷ []; order = 0 ∷ 1 ∷ 2 ∷ [] })
unfolding sort visit visit_each finish
sort-diamond = refl

rises : (x y : ℕ) → contains (diamond x) y ≡ true → (x < y) × (y < 3)
rises x y h = ground arith

climbs : {x y : ℕ} → Depends diamond x y → x < y
climbs {x} {y} (edge h) = (rises x y h).0
climbs (more {y} {z} p h) = omega (arith, climbs p, rises y z h)

sort-IsTopological_example :
    (t : Sorter) × (sort diamond 4 0 fresh ≡ some t)
    × IsTopological diamond t.order
    × ((x : ℕ) → (contains t.order x ≡ true) ↔ ((x ≡ 0) ⊎ Depends diamond 0 x))
sort-IsTopological_example =
    sort-IsTopological diamond 3 (λ c d k h. (rises c d h).1) 0 (omega arith)
      (λ x p. omega (arith, climbs p))
