-- ===== src/Components/DrawOrder/Splice.antt =====
-- What splicing a target's drawables into the list of all does to the links (src/artboard.cpp).
use rive_cpp_legacy.Prelude.{
  ℕ, ◌≡◌, ◌≢◌, refl, sym, ap, subst, ◌∙◌, inl, inr, List, [], ◌∷◌, ◌++◌, Option, none, some,
  if◌then◌else◌, ==_iff, arith, Option-cases, last_of, last_of-append,
}
use rive_cpp_legacy.Prelude.Fallible.{◌>>=◌}
use rive_cpp_legacy.Components.DrawOrder.{
  before, after, Links, update, set_prev, set_next, is_same, link_back, link_forth, splice_at,
}
use rive_cpp_legacy.Components.DrawOrder.Segments.{
  head_or, Linked, Misses, StandOnce, update_ne, update_eq, frame_prev, frame_next, Linked-append,
  Linked-left, Linked-right, link_first, link_last, All-left, All-right, All_last, Apart, Apart-sym,
  StandOnce_left, StandOnce_right, StandOnce-Apart, last_of-some,
}

-- A list around `x`, and a group of drawables apart from it.
module _ (xs : List ℕ) (x : ℕ) (ys : List ℕ) (g : ℕ) (gs : List ℕ) (l : ℕ) where
  pub record AreApart : Type 0 where
    pub once : StandOnce (xs ++ x ∷ ys)
    pub group_once : StandOnce (g ∷ gs)
    pub apart : Apart (g ∷ gs) (xs ++ x ∷ ys)
    pub ends : last_of none (g ∷ gs) ≡ some l

  module _ (are : AreApart) (prev next : ℕ → Option ℕ) where
    x-xs : Misses x xs
    x-xs = (Apart-sym xs (x ∷ ys) (StandOnce-Apart xs (x ∷ ys) are.once)).0

    x-ys : Misses x ys
    x-ys = (StandOnce_right xs (x ∷ ys) are.once).0

    x-group : Misses x (g ∷ gs)
    x-group =
        (All-right (λ k. Misses k (g ∷ gs)) xs (x ∷ ys)
          (Apart-sym (g ∷ gs) (xs ++ x ∷ ys) are.apart)).0

    l-all : Misses l (xs ++ x ∷ ys)
    l-all = All_last (λ k. Misses k (xs ++ x ∷ ys)) (g ∷ gs) l are.apart are.ends

    -- The second half of `before`: both ends of the gap are linked, but for `x` and `l`.
    join_before :
        Linked prev next none xs (some g)
        → Linked prev next (last_of none xs) (g ∷ gs) none
        → Linked prev next (last_of none xs) (x ∷ ys) none
        → Linked
            (update prev x (some l))
            (update next l (some x))
            none
            (xs ++ (g ∷ gs ++ x ∷ ys))
            none
    join_before lx lg ly =
        let prev' = update prev x (some l) in
        let next' = update next l (some x) in
        Linked-append prev' next' none xs (g ∷ gs ++ x ∷ ys) none
          (frame_next prev' next none xs (some g) l (some x)
            (All-left (λ y. y ≢ l) xs (x ∷ ys) l-all)
            (frame_prev prev next none xs (some g) x (some l) x-xs lx))
          (Linked-append prev' next' (last_of none xs) (g ∷ gs) (x ∷ ys) none
            (link_last prev' next (last_of none xs) (g ∷ gs) none l (some x) are.group_once are.ends
              (frame_prev prev next (last_of none xs) (g ∷ gs) none x (some l) x-group lg))
            (subst (λ p. Linked prev' next' p (x ∷ ys) none) (sym are.ends)
              (frame_next prev' next (some l) (x ∷ ys) none l (some x)
                (All-right (λ y. y ≢ l) xs (x ∷ ys) l-all)
                (link_first prev next (last_of none xs) x ys none (some l) x-ys ly))))

    -- The second half of `after`.
    join_after :
        Linked prev next none xs (some x)
        → prev x ≡ last_of none xs
        → Linked prev next none (g ∷ gs) (head_or none ys)
        → Linked prev next (some l) ys none
        → Linked
            (update prev g (some x))
            (update next x (some g))
            none
            (xs ++ x ∷ (g ∷ gs ++ ys))
            none
    join_after lx px lg ly =
        let prev' = update prev g (some x) in
        let next' = update next x (some g) in
        let g-all = are.apart.0 in
        Linked-append prev' next' none xs (x ∷ (g ∷ gs ++ ys)) none
          (frame_next prev' next none xs (some x) x (some g) x-xs (
            frame_prev prev next none xs (some x) g (some x)
              (All-left (λ y. y ≢ g) xs (x ∷ ys) g-all) lx))
          (
            update_ne prev g x (some x) (All-right (λ y. y ≢ g) xs (x ∷ ys) g-all).0 ∙ px,
            update_eq next x (some g),
            Linked-append prev' next' (some x) (g ∷ gs) ys none
                (frame_next prev' next (some x) (g ∷ gs) (head_or none ys) x (some g) x-group
                  (link_first prev next none g gs (head_or none ys) (some x) are.group_once.0 lg))
                (subst (λ p. Linked prev' next' p ys none) (sym are.ends)
                  (frame_next prev' next (some l) ys none x (some g) x-ys (
                    frame_prev prev next (some l) ys none g (some x)
                      (All-right (λ y. y ≢ g) xs (x ∷ ys) g-all).1 ly))),
          )

  -- What a splice leaves alone: the links of all other drawables, and the targets.
  abbrev pub Spares : Links → Links → Type 0
  Spares s t =
      ((y : ℕ)
        → Misses y (xs ++ x ∷ ys)
        → Misses y (g ∷ gs)
        → (t.prev y ≡ s.prev y) × (t.next y ≡ s.next y))
      × (t.first ≡ s.first)
      × (t.last ≡ s.last)
      × (t.changed ≡ s.changed)

  module _ (are : AreApart) (s : Links) (main : Linked s.prev s.next none (xs ++ x ∷ ys) none)
      (group : Linked s.prev s.next none (g ∷ gs) none) where
    abbrev HalfBefore : Links → Type 0
    HalfBefore t =
        Linked t.prev t.next none xs (some g)
        × Linked t.prev t.next (last_of none xs) (g ∷ gs) none
        × Linked t.prev t.next (last_of none xs) (x ∷ ys) none
        × Spares s t
        × (t.last_drawable ≡ s.last_drawable)

    back_none : last_of none xs ≡ none → HalfBefore s
    back_none e = (
      no_links xs e,
      subst (λ p. Linked s.prev s.next p (g ∷ gs) none) (sym e) group,
      Linked-right s.prev s.next none xs (x ∷ ys) none main,
      ((λ y m k. (refl, refl)), refl, refl, refl),
      refl,
    )
      where
        no_links : (zs : List ℕ) → last_of none zs ≡ none → Linked s.prev s.next none zs (some g)
        no_links [] e = tt
        no_links (z ∷ zs) e = absurd (some_none (sym (last_of-some z zs).1 ∙ e))
          where
            some_none : some (last_of-some z zs).0 ≡ none → ⊥
            some_none e = cc

    back_some : (p : ℕ) → last_of none xs ≡ some p → HalfBefore (link_back (some p) g s)
    back_some p e =
        let next' = update s.next p (some g) in
        let prev' = update s.prev g (some p) in
        let right = x ∷ ys in
        let p-right = All_last (λ k. Misses k right) xs p (StandOnce-Apart xs right are.once) e in
        let sides = Apart-sym (g ∷ gs) (xs ++ right) are.apart in
        let p-group =
          All_last (λ k. Misses k (g ∷ gs)) xs p (All-left (λ k. Misses k (g ∷ gs)) xs right sides)
            e in
        let g-xs = All-left (λ y. y ≢ g) xs right are.apart.0 in
        let g-right = All-right (λ y. y ≢ g) xs right are.apart.0 in
        let left = Linked-left s.prev s.next none xs right none main in
        let rest = Linked-right s.prev s.next none xs right none main in
        (
          frame_prev s.prev next' none xs (some g) g (some p) g-xs (
              link_last s.prev s.next none xs (some x) p (some g) (StandOnce_left xs right are.once)
                e left),
          subst (λ q. Linked prev' next' q (g ∷ gs) none) (sym e)
              (link_first s.prev next' none g gs none (some p) are.group_once.0
                (frame_next s.prev s.next none (g ∷ gs) none p (some g) p-group group)),
          frame_prev s.prev next' (last_of none xs) right none g (some p) g-right
              (frame_next s.prev s.next (last_of none xs) right none p (some g) p-right rest),
          (
            (λ y m k. (
              update_ne s.prev g y (some p) (λ q. k.0 (sym q)),
              update_ne s.next p y (some g)
                  (λ q. All_last (λ z. z ≢ y) xs p (All-left (λ z. z ≢ y) xs right m) e (sym q)),
            )),
            refl,
            refl,
            refl,
          ),
          refl,
        )

    back-HalfBefore : HalfBefore (link_back (s.prev x) g s)
    back-HalfBefore =
        let at_x = (Linked-right s.prev s.next none xs (x ∷ ys) none main).0 in
        subst (λ v. HalfBefore (link_back v g s)) (sym at_x)
          (elim (Option-cases (last_of none xs)) [
            | inl e ↦ subst (λ v. HalfBefore (link_back v g s)) (sym e) (back_none e)
            | inr (p, e) ↦ subst (λ v. HalfBefore (link_back v g s)) (sym e) (back_some p e)
          ])

    pub splice_before :
        (t : Links) × (splice_at before x g (some l) s ≡ some t)
        × Linked t.prev t.next none (xs ++ (g ∷ gs ++ x ∷ ys)) none
        × (t.last_drawable ≡ s.last_drawable)
        × Spares s t
    unfolding splice_at
    splice_before =
        let s1 = link_back (s.prev x) g s in
        let (lx, lg, ly, (spares, f, la, c), same) = back-HalfBefore in
        let first = if is_same s1.first_drawable x then some g else s1.first_drawable in
        (
          set_next l (some x) (set_prev x (some l) (record s1 { first_drawable = first })),
          refl,
          join_before are s1.prev s1.next lx lg ly,
          same,
          (
            (λ y m k. (
              update_ne s1.prev x y (some l) (λ q. (All-right (λ z. z ≢ y) xs (x ∷ ys) m).0 (sym q))
                  ∙ (spares y m k).0,
              update_ne s1.next l y (some x)
                    (λ q. All_last (λ z. z ≢ y) (g ∷ gs) l k are.ends (sym q))
                  ∙ (spares y m k).1,
            )),
            f,
            la,
            c,
          ),
        )

    -- The list behind `x`, empty or not.
    forth :
        (zs : List ℕ)
        → Linked s.prev s.next (some x) zs none
        → StandOnce zs
        → Misses x zs
        → Apart zs xs
        → Apart zs (g ∷ gs)
        → Misses l zs
        → ((y : ℕ) → Misses y (xs ++ x ∷ ys) → Misses y zs)
        → (t : Links) × (link_forth (head_or none zs) (some l) s ≡ some t)
          × Linked t.prev t.next none xs (some x)
          × (t.prev x ≡ last_of none xs)
          × Linked t.prev t.next none (g ∷ gs) (head_or none zs)
          × Linked t.prev t.next (some l) zs none
          × Spares s t
          × (t.last_drawable ≡ s.last_drawable)
    forth [] behind once away a-xs a-group l-zs within = (
      s,
      refl,
      Linked-left s.prev s.next none xs (x ∷ ys) none main,
      (Linked-right s.prev s.next none xs (x ∷ ys) none main).0,
      group,
      tt,
      ((λ y m k. (refl, refl)), refl, refl, refl),
      refl,
    )
    forth (n ∷ zs) behind (n-zs, once) (n-x, away) (n-xs, a-xs) (n-group, a-group) l-zs within =
        let prev' = update s.prev n (some l) in
        let next' = update s.next l (some n) in
        let left = Linked-left s.prev s.next none xs (x ∷ ys) none main in
        (
          set_next l (some n) (set_prev n (some l) s),
          refl,
          frame_next prev' s.next none xs (some x) l (some n)
              (All-left (λ y. y ≢ l) xs (x ∷ ys) (l-all are s.prev s.next))
              (frame_prev s.prev s.next none xs (some x) n (some l) n-xs left),
          update_ne s.prev n x (some l) (λ q. n-x (sym q))
              ∙ (Linked-right s.prev s.next none xs (x ∷ ys) none main).0,
          link_last prev' s.next none (g ∷ gs) none l (some n) are.group_once are.ends
              (frame_prev s.prev s.next none (g ∷ gs) none n (some l) n-group group),
          link_first s.prev next' (some x) n zs none (some l) n-zs
              (frame_next s.prev s.next (some x) (n ∷ zs) none l (some n) l-zs behind),
          (
            (λ y m k. (
              update_ne s.prev n y (some l) (λ q. (within y m).0 (sym q)),
              update_ne s.next l y (some n)
                  (λ q. All_last (λ z. z ≢ y) (g ∷ gs) l k are.ends (sym q)),
            )),
            refl,
            refl,
            refl,
          ),
          refl,
        )

    last_after :
        (zs : List ℕ)
        → Misses x zs
        → (if is_same (last_of (some x) zs) x then some l else last_of (some x) zs)
          ≡ last_of (some l) zs
    last_after [] away = rw ((==_iff x x).1 refl) refl
    last_after (n ∷ zs) away =
        let (m, e) = last_of-some n zs in
        let m-x : m ≢ x = All_last (λ z. z ≢ x) (n ∷ zs) m away e in
        rw e (ground (arith, m-x, ==_iff m x))

    moved_last :
        (v : Option ℕ)
        → v ≡ last_of none (xs ++ x ∷ ys)
        → (if is_same v x then some l else v) ≡ last_of none (xs ++ x ∷ (g ∷ gs ++ ys))
    moved_last v e =
        subst (λ w. (if is_same w x then some l else w) ≡ last_of none (xs ++ x ∷ (g ∷ gs ++ ys)))
          (sym (e ∙ last_of-append none xs (x ∷ ys)))
          (last_after ys (x-ys are s.prev s.next)
            ∙ ap (λ w. last_of w ys) (sym are.ends)
            ∙ sym (last_of-append (some g) gs ys)
            ∙ sym (last_of-append none xs (x ∷ (g ∷ gs ++ ys))))

    pub splice_after :
        s.last_drawable ≡ last_of none (xs ++ x ∷ ys)
        → (t : Links) × (splice_at after x g (some l) s ≡ some t)
          × Linked t.prev t.next none (xs ++ x ∷ (g ∷ gs ++ ys)) none
          × (t.last_drawable ≡ last_of none (xs ++ x ∷ (g ∷ gs ++ ys)))
          × Spares s t
    unfolding splice_at
    splice_after ends =
        let right = x ∷ ys in
        let rest = Linked-right s.prev s.next none xs right none main in
        let from_xs = Apart-sym xs right (StandOnce-Apart xs right are.once) in
        let from_group =
          All-right (λ k. Misses k (g ∷ gs)) xs right
            (Apart-sym (g ∷ gs) (xs ++ right) are.apart) in
        let l-right = All-right (λ y. y ≢ l) xs right (l-all are s.prev s.next) in
        let (s1, e, lx, px, lg, ly, (spares, f, la, c), same) =
          forth ys rest.2 (StandOnce_right xs right are.once).1 (x-ys are s.prev s.next) from_xs.1
            from_group.1 l-right.1 (λ y m. (All-right (λ z. z ≢ y) xs right m).1) in
        let last = if is_same s1.last_drawable x then some l else s1.last_drawable in
        let t = set_prev g (some x) (set_next x (some g) (record s1 { last_drawable = last })) in
        (
          t,
          ap
                (λ v. link_forth v (some l) s >>= λ u. some (
                  set_prev g (some x) (
                    set_next x (some g) (record u {
                      last_drawable = if is_same u.last_drawable x then some l else u.last_drawable;
                    }))))
                rest.1
              ∙ ap
                  (λ o. o >>= λ u. some (
                    set_prev g (some x) (
                      set_next x (some g) (record u {
                        last_drawable =
                            if is_same u.last_drawable x then some l else u.last_drawable;
                      }))))
                  e,
          join_after are s1.prev s1.next lx px lg ly,
          moved_last s1.last_drawable (same ∙ ends),
          (
            (λ y m k. (
              update_ne s1.prev g y (some x) (λ q. k.0 (sym q)) ∙ (spares y m k).0,
              update_ne s1.next x y (some g) (λ q. (All-right (λ z. z ≢ y) xs right m).0 (sym q))
                  ∙ (spares y m k).1,
            )),
            f,
            la,
            c,
          ),
        )
