-- ===== src/Animation/Listeners/Drawn.antt =====
-- sortHitComponents (src/animation/state_machine_instance.cpp) after sortDrawOrder (src/artboard.cpp).
use mathlib.Core.List.{reverse}
use rive_cpp_legacy.Prelude.{ℕ, ◌≤◌, ◌≡◌, List, ◌++◌, some, All, length}
use rive_cpp_legacy.Animation.Listeners.{HitComponent}
use rive_cpp_legacy.Animation.Listeners.Sort.{sort_hit_components}
use rive_cpp_legacy.Animation.Listeners.Sorted.{components, keep, IsSame}
use rive_cpp_legacy.Animation.Listeners.Order.{sort_hit_components-order}
use rive_cpp_legacy.Components.DrawOrder.{Links, Scene, sort_draw_order, draw_loop}
use rive_cpp_legacy.Components.DrawOrder.Segments.{StandOnce}
use rive_cpp_legacy.Components.DrawOrder.Order.{plain, drawn, StandsThere}
use rive_cpp_legacy.Components.DrawOrder.Distribute.{IsKnown}
use rive_cpp_legacy.Components.DrawOrder.Sorted.{sort_draw_order-drawn}

-- After sortDrawOrder, sortHitComponents puts the components whose drawable `draw` meets first, in
-- the opposite order to that of `draw`, so that what is drawn last is tried first, and it drops and
-- adds no component. It holds where no drawable and no target stands twice, each active target is one
-- of the artboard's, and the own drawable of a target that has drawables is in the list when its
-- turn comes.
pub sort_hit_components-drawn :
    (scene : Scene) (targets drawables : List ℕ) (s : Links) (fuel : ℕ) (cs : List HitComponent)
    → StandOnce drawables
    → StandOnce targets
    → All (λ d. IsKnown scene targets (scene.active d)) drawables
    → StandsThere scene drawables targets (plain scene drawables)
    → length (drawn scene drawables targets (plain scene drawables)) ≤ fuel
    → (u : Links) × (rest : List ℕ) × (sort_draw_order scene targets drawables s ≡ some u)
      × (components (sort_hit_components fuel u cs)
          ≡ keep (components cs) (reverse (draw_loop fuel u.first_drawable u)) ++ rest)
      × IsSame (components (sort_hit_components fuel u cs)) (components cs)
sort_hit_components-drawn scene targets drawables s fuel cs once distinct known there enough =
    let (u, run, met, linked, first, standing, changed) =
      sort_draw_order-drawn scene targets drawables s fuel once distinct known there enough in
    let (rest, order, same) =
      sort_hit_components-order (drawn scene drawables targets (plain scene drawables)) fuel u cs
        standing linked first enough in
    (u, rest, run, order, same)
