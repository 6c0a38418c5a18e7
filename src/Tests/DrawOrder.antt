-- ===== src/Tests/DrawOrder.antt =====
-- Witnesses and tests of the draw order (src/artboard.cpp).
use mathlib.Core.List.{reverse}
use rive_cpp_legacy.Prelude.{
  ℕ, ◌≡◌, refl, true, false, inr, List, [], ◌∷◌, ◌++◌, Option, none, some, arith, last_of,
  if◌then◌else◌, ◌==◌,
}
use rive_cpp_legacy.Animation.Listeners.{HitComponent, hit_nested_artboard}
use rive_cpp_legacy.Animation.Listeners.Sort.{sort_hit_components}
use rive_cpp_legacy.Animation.Listeners.Sorted.{components, keep, IsSame}
use rive_cpp_legacy.Animation.Listeners.Drawn.{sort_hit_components-drawn}
use rive_cpp_legacy.Components.DrawOrder.{
  before, after, neither, Links, Scene, sort_draw_order, draw_loop,
}
use rive_cpp_legacy.Components.DrawOrder.Segments.{Linked, StandOnce}
use rive_cpp_legacy.Components.DrawOrder.Order.{drawn, plain}
use rive_cpp_legacy.Components.DrawOrder.Sorted.{sort_draw_order-drawn}

-- The target 10 puts the drawable 4 before 1, and the target 11 puts 5 behind 4.
abbrev scene : Scene
scene = record {
  active = λ d. if d == 4 then some 10 else if d == 5 then some 11 else none;
  drawable = λ t. if t == 10 then 1 else 4;
  placement = λ t. if t == 10 then before else after;
}

-- Links as an earlier order left them.
abbrev stale : Links
stale = record {
  prev = λ d. some 2;
  next = λ d. some 3;
  first = λ t. some 5;
  last = λ t. some 5;
  first_drawable = some 1;
  last_drawable = none;
  changed = false;
}

abbrev drawables : List ℕ
drawables = 1 ∷ 2 ∷ 3 ∷ 4 ∷ 5 ∷ []

abbrev met : Option Links → List ℕ
met none = []
met (some s) = draw_loop 5 s.first_drawable s

sort_test : met (sort_draw_order scene (10 ∷ 11 ∷ []) drawables stale) ≡ 3 ∷ 2 ∷ 1 ∷ 5 ∷ 4 ∷ []
unfolding sort_draw_order draw_loop
sort_test = refl

-- With a placement of 2 in the file the target 11 puts its drawable 5 nowhere.
skipped_test :
    met (
      sort_draw_order
        (record scene { placement = λ t. if t == 10 then before else neither })
        (10 ∷ 11 ∷ [])
        drawables
        stale)
    ≡ 3 ∷ 2 ∷ 1 ∷ 4 ∷ []
unfolding sort_draw_order draw_loop
skipped_test = refl

abbrev list : List ℕ
list = drawn scene drawables (10 ∷ 11 ∷ []) (plain scene drawables)

sort_draw_order-drawn_example :
    (u : Links) × (sort_draw_order scene (10 ∷ 11 ∷ []) drawables stale ≡ some u)
    × (draw_loop 5 u.first_drawable u ≡ reverse list)
    × Linked u.prev u.next none list none
    × (u.first_drawable ≡ last_of none list)
    × StandOnce list
    × (u.changed ≡ true)
sort_draw_order-drawn_example =
    sort_draw_order-drawn scene (10 ∷ 11 ∷ []) drawables stale 5 (omega arith) (omega arith)
      (tt, (tt, (tt, (refl, (refl, tt))))) (inr refl, (inr refl, tt)) (omega arith)

abbrev hit : ℕ → HitComponent
hit = hit_nested_artboard

abbrev hits : List HitComponent
hits = hit 9 ∷ hit 1 ∷ hit 3 ∷ hit 5 ∷ []

abbrev sorted_hits : Option Links → List ℕ
sorted_hits none = []
sorted_hits (some u) = components (sort_hit_components 5 u hits)

-- The drawable 3 is drawn first, then 1, and 5 on top.
hits_test : sorted_hits (sort_draw_order scene (10 ∷ 11 ∷ []) drawables stale) ≡ 5 ∷ 1 ∷ 3 ∷ 9 ∷ []
unfolding sort_draw_order sort_hit_components
hits_test = refl

sort_hit_components-drawn_example :
    (u : Links) × (rest : List ℕ) × (sort_draw_order scene (10 ∷ 11 ∷ []) drawables stale ≡ some u)
    × (components (sort_hit_components 5 u hits)
        ≡ keep (components hits) (reverse (draw_loop 5 u.first_drawable u)) ++ rest)
    × IsSame (components (sort_hit_components 5 u hits)) (components hits)
sort_hit_components-drawn_example =
    sort_hit_components-drawn scene (10 ∷ 11 ∷ []) drawables stale 5 hits (omega arith)
      (omega arith) (tt, (tt, (tt, (refl, (refl, tt))))) (inr refl, (inr refl, tt)) (omega arith)
