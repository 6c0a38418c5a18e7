-- ===== src/Animation/Listeners/Order.antt =====
-- The walk of sortHitComponents (src/animation/state_machine_instance.cpp) over the drawables that
-- Artboard::sortDrawOrder linked.
use mathlib.Core.List.{reverse, append-nil, reverse-reverse}
use rive_cpp_legacy.Prelude.{
  count, ℕ, zero, suc, ◌+◌, ◌-◌, ◌≤◌, ◌≡◌, inl, inr, refl, sym, ap, ◌∙◌, List, [], ◌∷◌, ◌++◌,
  Option, none, some, Option-cases, arith, length, last_of,
}
use rive_cpp_legacy.Animation.Listeners.{HitComponent}
use rive_cpp_legacy.Animation.Listeners.Sort.{
  bring_forward, walk_back, sort_from, sort_hit_components,
}
use rive_cpp_legacy.Components.DrawOrder.{Links, draw_loop}
use rive_cpp_legacy.Components.DrawOrder.Segments.{Linked, StandOnce, head_or}
use rive_cpp_legacy.Components.DrawOrder.Ends.{draw_loop_list, draw_loop-none}
use rive_cpp_legacy.Animation.Listeners.Sorted.{components, keep, IsSame, sort_list, sort_list-keep}

sort_from-none : (n : ℕ) (s : Links) (cs : List HitComponent) → sort_from n none s cs ≡ cs
unfolding sort_from
sort_from-none zero s cs = refl
sort_from-none (suc n) s cs = refl

-- The loop over linked drawables is the one over their list.
sort_from_list :
    (xs : List ℕ) (k : ℕ) (p : Option ℕ) (s : Links) (cs : List HitComponent)
    → Linked s.prev s.next p xs none
    → sort_from (length xs + k) (head_or none xs) s cs ≡ sort_list xs cs
unfolding sort_from
sort_from_list [] k p s cs l = sort_from-none (0 + k) s cs
sort_from_list (x ∷ xs) k p s cs (back, forth, l) =
    let e : suc (length xs) + k ≡ suc (length xs + k) = omega arith in
    ap (λ n. sort_from n (some x) s cs) e ∙ elim (Option-cases (bring_forward x cs)) [
      | inl nothing ↦
          rw (sort_from, nothing, sort_list)
            (ap (λ q. sort_from (length xs + k) q s cs) forth ∙ sort_from_list xs k (some x) s cs l)
      | inr ((c, rest), found) ↦
          rw (sort_from, found, sort_list)
            (ap (λ q. c ∷ sort_from (length xs + k) q s rest) forth
              ∙ ap (λ cs. c ∷ cs) (sort_from_list xs k (some x) s rest l))
    ]

abbrev last_or : ℕ → List ℕ → ℕ
last_or p [] = p
last_or p (x ∷ xs) = last_or x xs

last_of-last_or : (x : ℕ) (xs : List ℕ) → last_of (some x) xs ≡ some (last_or x xs)
last_of-last_or x [] = refl
last_of-last_or x (y ∷ ys) = last_of-last_or y ys

-- The `prev`s lead from the end of linked drawables to their first.
walk_back_list :
    (xs : List ℕ) (p : ℕ) (k : ℕ) (s : Links)
    → Linked s.prev s.next (some p) xs none
    → walk_back (length xs + k) (last_or p xs) s ≡ walk_back k p s
unfolding walk_back
walk_back_list [] p k s l = let e : 0 + k ≡ k = omega arith in ap (λ n. walk_back n p s) e
walk_back_list (x ∷ xs) p k s (back, forth, l) =
    let e : suc (length xs) + k ≡ length xs + suc k = omega arith in
    let step : walk_back (suc k) x s ≡ walk_back k p s = rw (back, walk_back) refl in
    ap (λ n. walk_back n (last_or x xs) s) e ∙ walk_back_list xs x (suc k) s l ∙ step

walk_back-first : (k x : ℕ) (s : Links) → s.prev x ≡ none → walk_back k x s ≡ x
unfolding walk_back
walk_back-first zero x s e = refl
walk_back-first (suc k) x s e = rw (e, walk_back) refl

sort_hit_components_list :
    (xs : List ℕ) (k : ℕ) (s : Links) (cs : List HitComponent)
    → Linked s.prev s.next none xs none
    → s.first_drawable ≡ last_of none xs
    → sort_hit_components (length xs + k) s cs ≡ sort_list xs cs
unfolding sort_hit_components
sort_hit_components_list [] k s cs l e = rw e refl
sort_hit_components_list (x ∷ xs) k s cs (back, forth, l) e =
    let fuel = suc (length xs) + k in
    let more : fuel ≡ length xs + suc k = omega arith in
    let start : walk_back fuel (last_or x xs) s ≡ x =
      ap (λ n. walk_back n (last_or x xs) s) more
      ∙ walk_back_list xs x (suc k) s l
      ∙ walk_back-first (suc k) x s back in
    ap (λ o. elim o [ none ↦ cs | some d ↦ sort_from fuel (some (walk_back fuel d s)) s cs ])
      (e ∙ last_of-last_or x xs)
    ∙ ap (λ d. sort_from fuel (some d) s cs) start
    ∙ sort_from_list (x ∷ xs) k none s cs (back, forth, l)

-- Where the drawables are linked from the first to m_FirstDrawable and none stands twice,
-- sortHitComponents puts the components whose drawable is among them first, in the opposite order to
-- that in which `draw` meets these, and it drops and adds no component.
pub sort_hit_components-order :
    (xs : List ℕ) (fuel : ℕ) (s : Links) (cs : List HitComponent)
    → StandOnce xs
    → Linked s.prev s.next none xs none
    → s.first_drawable ≡ last_of none xs
    → length xs ≤ fuel
    → (rest : List ℕ) × (components (sort_hit_components fuel s cs)
        ≡ keep (components cs) (reverse (draw_loop fuel s.first_drawable s)) ++ rest)
      × IsSame (components (sort_hit_components fuel s cs)) (components cs)
sort_hit_components-order xs fuel s cs once l first enough =
    let k = fuel - length xs in
    let e : length xs + k ≡ fuel = omega (arith, enough) in
    let sorted =
      ap (λ n. sort_hit_components n s cs) (sym e) ∙ sort_hit_components_list xs k s cs l first in
    let met : draw_loop fuel s.first_drawable s ≡ reverse xs =
      ap (λ n. draw_loop n s.first_drawable s) (sym e)
      ∙ ap (λ o. draw_loop (length xs + k) o s) first
      ∙ draw_loop_list xs k none none s l
      ∙ ap (λ t. reverse xs ++ t) (draw_loop-none k s)
      ∙ append-nil (reverse xs) in
    let (rest, order, same) = sort_list-keep xs cs once in
    (
      rest,
      ap components sorted
          ∙ order
          ∙ ap (λ l. keep (components cs) l ++ rest) (sym (ap reverse met ∙ reverse-reverse xs)),
      λ g. ap (λ l. count g (components l)) sorted ∙ same g,
    )
