-- ===== src/Tests/Dirt.antt =====
-- Witnesses and tests of the dirt of components (src/component.cpp, src/artboard.cpp).
use rive_cpp_legacy.Prelude.{
  ℕ, zero, suc, ◌<◌, ◌≡◌, refl, Bool, true, List, [], ◌∷◌, Option, none, some, arith, inr, All,
}
use rive_cpp_legacy.Components.Dirt.{
  Dirt, Graph, set_dirt, add_dependent, add_dirt, collapse, update_components, is_collapsed,
}
use rive_cpp_legacy.Components.Dirt.Spread.{Adds, Has}
use rive_cpp_legacy.Components.Dirt.AddDirt.{Below, IsWhole, add_dirt_reaches}
use rive_cpp_legacy.Components.Dirt.Pass.{StandOnce}
use rive_cpp_legacy.Components.Dirt.Settle.{IsDone, update_components-IsDone}

-- The artboard 0, a node 1, its children 2 and 3, of which 3 depends on 2.
abbrev children : ℕ → List ℕ
children zero = []
children (suc zero) = 2 ∷ 3 ∷ []
children (suc (suc zero)) = add_dependent 3 (3 ∷ [])
children (suc (suc (suc c))) = []

abbrev tree : Graph
tree = record { root = 0; dependents = children; graph_order = λ c. c; override = λ c. none }

abbrev clean : Dirt
clean = record { dirt = λ c. 0; depth = 0 }

-- Each `update` leaves everything as it is.
abbrev idle : ℕ → ℕ → Dirt → Dirt
idle c d s = s

abbrev order : List ℕ
order = 1 ∷ 2 ∷ 3 ∷ []

abbrev dirts : Dirt → List ℕ
dirts s = s.dirt 0 ∷ s.dirt 1 ∷ s.dirt 2 ∷ s.dirt 3 ∷ []

abbrev moved : Option (Bool × Dirt) → List ℕ
moved none = []
moved (some (changed, s)) = dirts s

add_dirt_test : moved (add_dirt tree 5 1 64 true clean) ≡ 4 ∷ 64 ∷ 64 ∷ 64 ∷ []
unfolding add_dirt add_dependent
add_dirt_test = refl

collapse_test : is_collapsed 2 (collapse tree 2 true clean).1 ≡ true
unfolding collapse is_collapsed
collapse_test = refl

abbrev dirty : Dirt
dirty = set_dirt 0 4 (set_dirt 2 64 clean)

update_components_test :
    dirts (update_components tree idle (0 ∷ order) dirty).1 ≡ 0 ∷ 0 ∷ 0 ∷ 0 ∷ []
unfolding update_components
update_components_test = refl

numbered : (x : ℕ) → x < 4 → All (λ d. d < 4) (children x)
unfolding add_dependent
numbered zero less = tt
numbered (suc zero) less = (omega arith, (omega arith, tt))
numbered (suc (suc zero)) less = (omega arith, tt)
numbered (suc (suc (suc c))) less = tt

whole : IsWhole tree 64 4 clean
whole x away has = absurd (lacks has)
  where
    lacks : ◌≡◌ {A = ℕ} 0 64 → ⊥
    lacks e = omega (arith, e)

once : StandOnce (0 ∷ order)
once = (
  ((λ e. omega (arith, e)), ((λ e. omega (arith, e)), ((λ e. omega (arith, e)), tt))),
  (
    ((λ e. omega (arith, e)), ((λ e. omega (arith, e)), tt)),
    (((λ e. omega (arith, e)), tt), (tt, tt)),
  ),
)

add_dirt_reaches_example :
    (changed : Bool) × (t : Dirt) × (add_dirt tree 5 1 64 true clean ≡ some (changed, t))
    × ((d : ℕ) → Below tree 64 4 1 d → Has t d 64)
    × IsWhole tree 64 4 t
    × Adds clean t
unfolding add_dependent
add_dirt_reaches_example =
    add_dirt_reaches tree 64 4 (λ c. refl) numbered 5 1 clean (omega arith) (omega arith) whole

update_components-IsDone_example :
    ((update_components tree idle (0 ∷ order) dirty).0 ≡ true)
    × IsDone tree idle 100 (0 ∷ order) dirty (update_components tree idle (0 ∷ order) dirty).1
update_components-IsDone_example =
    update_components-IsDone tree idle (λ c d s. ((λ h. h), inr refl)) order dirty once refl
