-- ===== src/Components/DrawOrder/Ends.antt =====
-- Before the loops of sortDrawOrder, and the loop of draw (src/artboard.cpp).
use mathlib.Core.List.{reverse, reverse-cons, append_assoc}
use rive_cpp_legacy.Prelude.{
  ℕ, zero, suc, ◌≡◌, ◌≢◌, refl, sym, ap, subst, ◌∙◌, ◌⊎◌, inl, inr, true, false, List, [], ◌∷◌,
  ◌++◌, Option, none, some, ◌==◌, ==_iff, Bool-cases, arith, contains, ◌+◌, last_of, length,
}
use rive_cpp_legacy.Components.DrawOrder.{Links, update, reset_targets, draw_loop}
use rive_cpp_legacy.Components.DrawOrder.Segments.{Linked, update_ne, update_eq}

contains-cons :
    (o : ℕ) (ts : List ℕ) (t : ℕ)
    → contains (o ∷ ts) t ≡ true
    → (t == o) ≡ false
    → contains ts t ≡ true
contains-cons o ts t h e = ground (arith, h, e)

pub reset_targets-none :
    (ts : List ℕ) (s : Links) (t : ℕ)
    → (contains ts t ≡ true) ⊎ ((s.first t ≡ none) × (s.last t ≡ none))
    → ((reset_targets ts s).first t ≡ none) × ((reset_targets ts s).last t ≡ none)
unfolding reset_targets
reset_targets-none [] s t (inl h) = cc
reset_targets-none [] s t (inr h) = h
reset_targets-none (o ∷ ts) s t h = elim (Bool-cases (t == o)) [
  | inl here ↦ reset_targets-none ts (cleared s) t (inr (at here))
  | inr other ↦ reset_targets-none ts (cleared s) t (still h other)
]
  where
    cleared : Links → Links
    cleared s = record s { first = update s.first o none; last = update s.last o none }

    at : (t == o) ≡ true → ((cleared s).first t ≡ none) × ((cleared s).last t ≡ none)
    at here =
        subst (λ k. ((cleared s).first k ≡ none) × ((cleared s).last k ≡ none))
          (sym ((==_iff t o).0 here)) (update_eq s.first o none, update_eq s.last o none)

    away : (t == o) ≡ false → t ≢ o
    away e q = ground (arith, e, q)

    still :
        (contains (o ∷ ts) t ≡ true) ⊎ ((s.first t ≡ none) × (s.last t ≡ none))
        → (t == o) ≡ false
        → (contains ts t ≡ true) ⊎ (((cleared s).first t ≡ none) × ((cleared s).last t ≡ none))
    still (inl h) other = inl (contains-cons o ts t h other)
    still (inr (f, la)) other =
        inr
          (update_ne s.first o t none (away other) ∙ f, update_ne s.last o t none (away other) ∙ la)

pub reset_targets_changed : (ts : List ℕ) (s : Links) → (reset_targets ts s).changed ≡ s.changed
unfolding reset_targets
reset_targets_changed [] s = refl
reset_targets_changed (t ∷ ts) s =
    reset_targets_changed ts
      (record s { first = update s.first t none; last = update s.last t none })

-- The loop of `draw` meets a linked list from its end.
pub draw_loop_list :
    (xs : List ℕ) (k : ℕ) (p : Option ℕ) (end : Option ℕ) (s : Links)
    → Linked s.prev s.next p xs end
    → draw_loop (length xs + k) (last_of p xs) s ≡ reverse xs ++ draw_loop k p s
unfolding draw_loop
draw_loop_list [] k p end s l = let e : 0 + k ≡ k = omega arith in rw e refl
draw_loop_list (x ∷ xs) k p end s (back, forth, l) =
    let e : suc (length xs) + k ≡ length xs + suc k = omega arith in
    ap (λ n. draw_loop n (last_of (some x) xs) s) e
    ∙ draw_loop_list xs (suc k) (some x) end s l
    ∙ ap (λ q. reverse xs ++ x ∷ draw_loop k q s) back
    ∙ sym (append_assoc (reverse xs) (x ∷ []) (draw_loop k p s))
    ∙ ap (λ l. l ++ draw_loop k p s) (sym (reverse-cons x xs))

pub draw_loop-none : (k : ℕ) (s : Links) → draw_loop k none s ≡ []
unfolding draw_loop
draw_loop-none zero s = refl
draw_loop-none (suc k) s = refl
