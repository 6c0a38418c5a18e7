-- ===== src/Components/Dirt.antt =====
-- The dirt of components (src/component.cpp, include/rive/dependency_helper.hpp) and the update
-- cycle of their Artboard (src/artboard.cpp). A component is its number. `onDirty` is that of
-- Component and of Artboard; where another kind of component overrides it, what the override does
-- is a parameter, as `update` is, since each kind of component has its own.
pub mod Spread
pub mod AddDirt
pub mod Pass
pub mod Settle
use rive_cpp_legacy.Prelude.{
  ℕ, zero, suc, ◌+◌, Bool, true, false, not, ◌||◌, List, [], ◌∷◌, ◌++◌, Option, none, some, bit_and,
  bit_or, contains, if◌then◌else◌, ◌==◌, ltb,
}

abbrev pub collapsed : ℕ
collapsed = 1

abbrev pub components : ℕ
components = 4

-- The complement of a flag within the 16 bits.
abbrev pub all_but_collapsed : ℕ
all_but_collapsed = 0xFFFE

abbrev pub all_but_components : ℕ
all_but_components = 0xFFFB

-- m_Dirt of each component, and m_DirtDepth.
pub record Dirt : Type 0 where
  pub dirt : ℕ → ℕ
  pub depth : ℕ

abbrev pub set_dirt : ℕ → ℕ → Dirt → Dirt
set_dirt c value s = record s { dirt = λ x. if x == c then value else s.dirt x }

abbrev pub or_dirt : ℕ → ℕ → Dirt → Dirt
or_dirt c value s = set_dirt c (bit_or (s.dirt c) value) s

-- The member `hasDirt`.
abbrev pub has_dirt : ℕ → ℕ → Bool
has_dirt dirt flag = bit_and dirt flag == flag

unfoldable pub is_collapsed : ℕ → Dirt → Bool
is_collapsed c s = has_dirt (s.dirt c) collapsed

-- The answer of a call and the state behind it; `none` says that the fuel ran out.
abbrev pub Answer : Type 0
Answer = Option (Bool × Dirt)

-- The loop of DependencyHelper::addDirt.
unfoldable pub add_dirt_each : (ℕ → Dirt → Answer) → List ℕ → Dirt → Option Dirt
add_dirt_each add [] s = some s
add_dirt_each add (d ∷ ds) s = elim (add d s) [
  | none ↦ none
  | some (changed, t) ↦ add_dirt_each add ds t
]

unfoldable pub add_dependent : ℕ → List ℕ → List ℕ
add_dependent component dependents =
    if contains dependents component then dependents else dependents ++ component ∷ []

-- The artboard, the dependents and the graph order of its components, and what the override of
-- `onDirty` does of those whose class has one (Path, PathComposer, TextStyle, Constraint,
-- LayoutComponent and Skin), from the dirt that it is called with.
pub record Graph : Type 0 where
  pub root : ℕ
  pub dependents : ℕ → List ℕ
  pub graph_order : ℕ → ℕ
  pub override : ℕ → Option (ℕ → Dirt → Dirt)

module _ (graph : Graph) where
  open graph use {root, dependents, graph_order, override}

  unfoldable pub on_component_dirty : ℕ → Dirt → Dirt
  on_component_dirty c s =
      let t = or_dirt root components s in
      if ltb (graph_order c) t.depth then record t { depth = graph_order c } else t

  unfoldable pub on_dirty : ℕ → Dirt → Dirt
  on_dirty c s = elim (override c) [
    | none ↦ if c == root then or_dirt root components s else s
    | some overriding ↦ overriding (s.dirt c) s
  ]

  -- What addDirt does to the component itself.
  unfoldable pub mark : ℕ → ℕ → Dirt → Dirt
  unfolding on_component_dirty on_dirty
  mark c value s = on_component_dirty c (on_dirty c (or_dirt c value s))

  abbrev changed_all : Option Dirt → Answer
  changed_all none = none
  changed_all (some s) = some (true, s)

  unfoldable pub add_dirt : ℕ → ℕ → ℕ → Bool → Dirt → Answer
  unfolding mark add_dirt_each
  add_dirt zero c value recurse s = none
  add_dirt (suc fuel) c value recurse s =
      let below =
        changed_all
          (add_dirt_each (λ d t. add_dirt fuel d value true t) (dependents c) (mark c value s)) in
      if has_dirt (s.dirt c) value
      then some (false, s)
      else if not recurse
      then some (true, mark c value s)
      else below

  unfoldable pub collapse : ℕ → Bool → Dirt → Bool × Dirt
  unfolding is_collapsed on_component_dirty on_dirty
  collapse c true s =
      if is_collapsed c s
      then (false, s)
      else (true, on_component_dirty c (on_dirty c (or_dirt c collapsed s)))
  collapse c false s = if not (is_collapsed c s) then (false, s) else (
    true,
    on_component_dirty c (on_dirty c (set_dirt c (bit_and (s.dirt c) all_but_collapsed) s)),
  )

  module _ (update : ℕ → ℕ → Dirt → Dirt) where
    -- The `for` loop of updateComponents from the index `i` on.
    unfoldable pub update_pass : ℕ → List ℕ → Dirt → Dirt
    update_pass i [] s = s
    update_pass i (c ∷ order) s =
        let d = s.dirt c in
        let t : Dirt = record s { depth = i } in
        let updated = update c d (set_dirt c 0 t) in
        let skipped = update_pass (i + 1) order t in
        let passed = update_pass (i + 1) order updated in
        if d == 0 || has_dirt d collapsed
        then skipped
        else if ltb updated.depth i
        then updated
        else passed

    -- The `while` loop, with the steps that are left of maxSteps.
    unfoldable pub update_loop : ℕ → List ℕ → Dirt → Dirt
    unfolding update_pass
    update_loop zero order s = s
    update_loop (suc left) order s =
        let cleared = set_dirt root (bit_and (s.dirt root) all_but_components) s in
        let rest = update_loop left order (update_pass 0 order cleared) in
        if has_dirt (s.dirt root) components then rest else s

    abbrev pub max_steps : ℕ
    max_steps = 100

    unfoldable pub update_components : List ℕ → Dirt → Bool × Dirt
    unfolding update_loop
    update_components order s =
        if has_dirt (s.dirt root) components
        then (true, update_loop max_steps order s)
        else (false, s)
