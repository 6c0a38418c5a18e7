-- ===== src/Components/DrawOrder/Sorted.antt =====
-- sortDrawOrder and draw (src/artboard.cpp) as a whole.
use mathlib.Core.List.{reverse, append-nil}
use rive_cpp_legacy.Prelude.{
  ℕ, ◌≡◌, ◌≢◌, refl, sym, ap, subst, ◌∙◌, ◌⊎◌, inl, inr, true, List, [], ◌∷◌, ◌++◌, Option, none,
  some, ==_iff, arith, All, contains, ◌+◌, ◌-◌, ◌≤◌, last_of, length,
}
use rive_cpp_legacy.Prelude.Fallible.{◌>>=◌}
use rive_cpp_legacy.Components.DrawOrder.{
  Links, reset_targets, splice_from, splice, splice_all, sort_draw_order, draw_loop, Scene,
}
use rive_cpp_legacy.Components.DrawOrder.Segments.{head_or, Linked, Misses, StandOnce}
use rive_cpp_legacy.Components.DrawOrder.Order.{
  group, plain, place, drawn, StandsThere, StandOnce-plain, plain-owned, split_at, place_nothing,
}
use rive_cpp_legacy.Components.DrawOrder.Groups.{IsList}
use rive_cpp_legacy.Components.DrawOrder.Distribute.{
  IsKnown, IsDistributed, distribute-IsDistributed,
}
use rive_cpp_legacy.Components.DrawOrder.Placed.{IsPlaced, IsFree, IsFree-rest, place_at}
use rive_cpp_legacy.Components.DrawOrder.Ends.{
  reset_targets-none, reset_targets_changed, draw_loop_list, draw_loop-none,
}

module _ (scene : Scene) (drawables : List ℕ) (once : StandOnce drawables) where
  open scene use {active, drawable, placement}

  splice_from-IsPlaced :
      (ks : List ℕ) (t : ℕ) (ts order : List ℕ) (s : Links)
      → group scene t drawables ≡ ks
      → Misses t ts
      → (ks ≡ []) ⊎ (contains order (drawable t) ≡ true)
      → IsPlaced scene drawables once (t ∷ ts) order s
      → (u : Links) × (splice_from scene (head_or none ks) t s ≡ some u)
        × IsPlaced scene drawables once ts (place (placement t) (drawable t) ks order) u
        × (u.changed ≡ s.changed)
  unfolding splice_from
  splice_from-IsPlaced [] t ts order s e new there is = (
    s,
    refl,
    subst (λ o. IsPlaced scene drawables once ts o s)
        (sym (place_nothing (placement t) (drawable t) order))
        (record {
          main = is.main;
          ends = is.ends;
          distinct = is.distinct;
          owned = IsFree-rest scene drawables once t ts order is.owned;
          groups = is.groups.1;
        }),
    refl,
  )
  splice_from-IsPlaced (g ∷ gs) t ts order s e new (inl h) is = cc
  splice_from-IsPlaced (g ∷ gs) t ts order s e new (inr there) is =
      let (xs, ys, whole, away) = split_at (drawable t) order there in
      let (u, run, is', c) =
        place_at scene drawables once (drawable t) t ts xs ys g gs s e new
          (subst (λ o. IsPlaced scene drawables once (t ∷ ts) o s) whole is) (placement t) away in
      (
        u,
        run,
        subst
            (λ o. IsPlaced scene drawables once ts (place (placement t) (drawable t) (g ∷ gs) o) u)
            (sym whole) is',
        c,
      )

  splice-IsPlaced :
      (t : ℕ) (ts order : List ℕ) (s : Links)
      → Misses t ts
      → (group scene t drawables ≡ []) ⊎ (contains order (drawable t) ≡ true)
      → IsPlaced scene drawables once (t ∷ ts) order s
      → (u : Links) × (splice scene t s ≡ some u)
        × IsPlaced scene drawables once ts
            (place (placement t) (drawable t) (group scene t drawables) order)
            u
        × (u.changed ≡ s.changed)
  unfolding splice
  splice-IsPlaced t ts order s new there is =
      let (u, run, is', c) =
        splice_from-IsPlaced (group scene t drawables) t ts order s refl new there is in
      (u, ap (λ f. splice_from scene f t s) is.groups.0.1 ∙ run, is', c)

  splice_all-IsPlaced :
      (ts order : List ℕ) (s : Links)
      → StandOnce ts
      → StandsThere scene drawables ts order
      → IsPlaced scene drawables once ts order s
      → (u : Links) × (splice_all scene ts s ≡ some u)
        × IsPlaced scene drawables once [] (drawn scene drawables ts order) u
        × (u.changed ≡ s.changed)
  unfolding splice_all
  splice_all-IsPlaced [] order s d there is = (s, refl, is, refl)
  splice_all-IsPlaced (t ∷ ts) order s (new, d) (here, there) is =
      let (u, e, is', c) = splice-IsPlaced t ts order s new here is in
      let (v, e', is'', c') =
        splice_all-IsPlaced ts (place (placement t) (drawable t) (group scene t drawables) order) u
          d there is' in
      (v, ap (λ o. o >>= λ s'. splice_all scene ts s') e ∙ e', is'', c' ∙ c)

  unowned-IsFree :
      (ts xs : List ℕ) → All (λ d. active d ≡ none) xs → All (IsFree scene drawables once ts) xs
  unowned-IsFree ts [] h = tt
  unowned-IsFree ts (x ∷ xs) (e, h) = (each ts, unowned-IsFree ts xs h)
    where
      none-some : (t : ℕ) → none ≢ some t
      none-some t e = cc

      each : (ts : List ℕ) → IsFree scene drawables once ts x
      each [] = tt
      each (t ∷ ts) = ((λ q. none-some t (sym e ∙ q)), each ts)

  All-lists :
      (targets ts : List ℕ) (s : Links)
      → ((t : ℕ) → contains ts t ≡ true → contains targets t ≡ true)
      → ((t : ℕ)
          → contains targets t ≡ true
          → IsList s (group scene t drawables) (s.first t) (s.last t))
      → All (λ t. IsList s (group scene t drawables) (s.first t) (s.last t)) ts
  All-lists targets [] s within lists = tt
  All-lists targets (t ∷ ts) s within lists = (
    lists t (within t (rw ((==_iff t t).1 refl) refl)),
    All-lists targets ts s (λ o h. within o (later o h)) lists,
  )
    where
      later : (o : ℕ) → contains ts o ≡ true → contains (t ∷ ts) o ≡ true
      later o h = ground (arith, h)

-- sortDrawOrder writes through no null pointer, and `draw` then meets the drawables from the last
-- to the first of this list: those without an active target in their order, with the drawables of
-- each target put right before or behind the target's own drawable, one target after the other, and
-- those of a target with any other placement left out. No drawable stands twice in it, `prev` and
-- `next` lead through it up to m_FirstDrawable, and m_HasChangedDrawOrderInLastUpdate is set. It
-- holds where no drawable and no target stands twice, each active target is one of the artboard's,
-- and the own drawable of a target that has drawables is in the list when its turn comes.
pub sort_draw_order-drawn :
    (scene : Scene) (targets drawables : List ℕ) (s : Links) (fuel : ℕ)
    → StandOnce drawables
    → StandOnce targets
    → All (λ d. IsKnown scene targets (scene.active d)) drawables
    → StandsThere scene drawables targets (plain scene drawables)
    → length (drawn scene drawables targets (plain scene drawables)) ≤ fuel
    → (u : Links) × (sort_draw_order scene targets drawables s ≡ some u)
      × (draw_loop fuel u.first_drawable u
          ≡ reverse (drawn scene drawables targets (plain scene drawables)))
      × Linked u.prev u.next none (drawn scene drawables targets (plain scene drawables)) none
      × (u.first_drawable ≡ last_of none (drawn scene drawables targets (plain scene drawables)))
      × StandOnce (drawn scene drawables targets (plain scene drawables))
      × (u.changed ≡ true)
unfolding sort_draw_order
sort_draw_order-drawn scene targets drawables s fuel once distinct known there enough =
    let s0 = reset_targets targets (record s { changed = true }) in
    let s1 = record s0 { first_drawable = none; last_drawable = none } in
    let start : IsDistributed scene targets [] s1 = record {
      main = tt;
      ends = refl;
      groups = λ t h.
          let (f, la) = reset_targets-none targets (record s { changed = true }) t (inl h) in
          (tt, f, la);
    } in
    let (s2, e2, dist, c2) =
      distribute-IsDistributed scene targets drawables [] s1 once known start in
    let placed : IsPlaced scene drawables once targets (plain scene drawables) s2 = record {
      main = dist.main;
      ends = dist.ends;
      distinct = StandOnce-plain scene drawables once;
      owned =
          unowned-IsFree scene drawables once targets (plain scene drawables)
            (plain-owned scene drawables);
      groups = All-lists scene drawables once targets targets s2 (λ t h. h) dist.groups;
    } in
    let (s3, e3, is, c3) =
      splice_all-IsPlaced scene drawables once targets (plain scene drawables) s2 distinct there
        placed in
    let list = drawn scene drawables targets (plain scene drawables) in
    let u = record s3 { first_drawable = s3.last_drawable } in
    let rounds : length list + (fuel - length list) ≡ fuel = omega (arith, enough) in
    (
      u,
      ap
            (λ (o : Option Links). o >>= λ (s2 : Links).
              splice_all scene targets s2 >>= λ (s3 : Links).
              some (record s3 { first_drawable = s3.last_drawable }))
            e2
          ∙ ap
              (λ (o : Option Links).
                o >>= λ (s3 : Links). some (record s3 { first_drawable = s3.last_drawable }))
              e3,
      ap (λ q. draw_loop fuel q u) is.ends
          ∙ ap (λ n. draw_loop n (last_of none list) u) (sym rounds)
          ∙ draw_loop_list list (fuel - length list) none none u is.main
          ∙ ap (λ l. reverse list ++ l) (draw_loop-none (fuel - length list) u)
          ∙ append-nil (reverse list),
      is.main,
      is.ends,
      is.distinct,
      c3 ∙ c2 ∙ reset_targets_changed targets (record s { changed = true }),
    )
