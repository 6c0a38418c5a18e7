-- ===== src/Prelude/Counts.antt =====
-- How often a number stands in a list.
use Prim.Native.Nat.{ℕ, suc, ◌+◌}
use mathlib.Core.Path.{◌≡◌}
use mathlib.Core.List.{List, [], ◌∷◌, ◌++◌}
use rive_cpp_legacy.Prelude.Tests.{◌==◌, if◌then◌else◌}
use native.Mathlib.Omega.{arith}

abbrev pub count : ℕ → List ℕ → ℕ
count g [] = 0
count g (h ∷ hs) = if g == h then suc (count g hs) else count g hs

pub count-append : (g : ℕ) (xs ys : List ℕ) → count g (xs ++ ys) ≡ count g xs + count g ys
count-append g [] ys = omega arith
count-append g (x ∷ xs) ys = ground (arith, count-append g xs ys)
