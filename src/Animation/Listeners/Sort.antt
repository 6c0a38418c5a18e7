-- ===== src/Animation/Listeners/Sort.antt =====
-- StateMachineInstance::sortHitComponents (src/animation/state_machine_instance.cpp), over the links
-- that Artboard::sortDrawOrder leaves.
use rive_cpp_legacy.Prelude.{ℕ, zero, suc, List, [], ◌∷◌, Option, none, some, if◌then◌else◌, ◌==◌}
use rive_cpp_legacy.Animation.Listeners.{HitComponent, hit_shape, hit_nested_artboard}
use rive_cpp_legacy.Components.DrawOrder.{Links}

abbrev pub component : HitComponent → ℕ
component (hit_shape shape) = shape.component
component (hit_nested_artboard artboard) = artboard

abbrev pub put_back :
    HitComponent
    → Option (HitComponent × List HitComponent)
    → Option (HitComponent × List HitComponent)
put_back c none = none
put_back c (some (x, cs)) = some (x, c ∷ cs)

-- The first element with this drawable, whose place `x` takes.
unfoldable pub swap_found :
    ℕ → HitComponent → List HitComponent → Option (HitComponent × List HitComponent)
swap_found d x [] = none
swap_found d x (c ∷ cs) =
    let later = put_back c (swap_found d x cs) in
    if component c == d then some (c, x ∷ cs) else later

-- The element for this drawable, swapped to the front of the rest, with what lies behind it.
unfoldable pub bring_forward : ℕ → List HitComponent → Option (HitComponent × List HitComponent)
unfolding swap_found
bring_forward d [] = none
bring_forward d (x ∷ xs) = if component x == d then some (x, xs) else swap_found d x xs

-- The way to the end of the `prev`s.
unfoldable pub walk_back : ℕ → ℕ → Links → ℕ
walk_back zero d s = d
walk_back (suc fuel) d s = elim (s.prev d) [ none ↦ d | some p ↦ walk_back fuel p s ]

-- The loop from a drawable on, over the components from currentSortedIndex on.
unfoldable pub sort_from : ℕ → Option ℕ → Links → List HitComponent → List HitComponent
unfolding bring_forward
sort_from zero pointer s cs = cs
sort_from (suc fuel) none s cs = cs
sort_from (suc fuel) (some d) s cs = elim (bring_forward d cs) [
  | none ↦ sort_from fuel (s.next d) s cs
  | some (c, rest) ↦ c ∷ sort_from fuel (s.next d) s rest
]

unfoldable pub sort_hit_components : ℕ → Links → List HitComponent → List HitComponent
unfolding walk_back sort_from
sort_hit_components fuel s cs = elim s.first_drawable [
  | none ↦ cs
  | some d ↦ sort_from fuel (some (walk_back fuel d s)) s cs
]
