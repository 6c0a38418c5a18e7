-- ===== src/Components/DrawOrder/Placed.antt =====
-- The second loop of sortDrawOrder (src/artboard.cpp): one target's drawables are placed.
use rive_cpp_legacy.Prelude.{
  ℕ, ◌≡◌, ◌≢◌, refl, sym, ap, subst, ◌∙◌, List, [], ◌∷◌, ◌++◌, none, some, All, last_of,
  last_of-append,
}
use rive_cpp_legacy.Components.DrawOrder.{
  Placement, before, after, neither, Links, splice_at, Scene,
}
use rive_cpp_legacy.Components.DrawOrder.Segments.{
  Linked, Misses, StandOnce, Apart, All-left, All-right, All-append, StandOnce_left,
  StandOnce_right, StandOnce-Apart, StandOnce-append, Apart-sym, Linked-same, last_of-some,
}
use rive_cpp_legacy.Components.DrawOrder.Order.{
  group, place, StandOnce-group, group-owned, owned-Misses, place-before, place-after,
  place_neither,
}
use rive_cpp_legacy.Components.DrawOrder.Groups.{IsList}
use rive_cpp_legacy.Components.DrawOrder.Splice.{AreApart, Spares, splice_before, splice_after}

Apart-append : (zs xs ys : List ℕ) → Apart zs xs → Apart zs ys → Apart zs (xs ++ ys)
Apart-append [] xs ys a b = tt
Apart-append (z ∷ zs) xs ys (m, a) (n, b) =
    (All-append (λ y. y ≢ z) xs ys m n, Apart-append zs xs ys a b)

Apart-left : (zs xs ys : List ℕ) → Apart zs (xs ++ ys) → Apart zs xs
Apart-left [] xs ys a = tt
Apart-left (z ∷ zs) xs ys (m, a) = (All-left (λ y. y ≢ z) xs ys m, Apart-left zs xs ys a)

Apart-right : (zs xs ys : List ℕ) → Apart zs (xs ++ ys) → Apart zs ys
Apart-right [] xs ys a = tt
Apart-right (z ∷ zs) xs ys (m, a) = (All-right (λ y. y ≢ z) xs ys m, Apart-right zs xs ys a)

module _ (xs : List ℕ) (x : ℕ) (ys g : List ℕ) (once : StandOnce (xs ++ x ∷ ys))
    (group_once : StandOnce g) (apart : Apart g (xs ++ x ∷ ys)) where
  right_once : StandOnce (x ∷ ys)
  right_once = StandOnce_right xs (x ∷ ys) once

  xs-right : Apart xs (x ∷ ys)
  xs-right = StandOnce-Apart xs (x ∷ ys) once

  g-right : Apart g (x ∷ ys)
  g-right = Apart-right g xs (x ∷ ys) apart

  xs-g : Apart xs g
  xs-g = Apart-sym g xs (Apart-left g xs (x ∷ ys) apart)

  once_before : StandOnce (xs ++ (g ++ x ∷ ys))
  once_before =
      StandOnce-append xs (g ++ x ∷ ys) (StandOnce_left xs (x ∷ ys) once)
        (StandOnce-append g (x ∷ ys) group_once right_once g-right)
        (Apart-append xs g (x ∷ ys) xs-g xs-right)

  once_after : StandOnce (xs ++ x ∷ (g ++ ys))
  once_after =
      let g-ys = Apart-right g (x ∷ []) ys g-right in
      let x-g = (Apart-sym g (x ∷ ys) g-right).0 in
      StandOnce-append xs (x ∷ (g ++ ys)) (StandOnce_left xs (x ∷ ys) once)
        (
          All-append (λ y. y ≢ x) g ys x-g right_once.0,
          StandOnce-append g ys group_once right_once.1 g-ys,
        )
        (Apart-append xs (x ∷ []) (g ++ ys) (Apart-left xs (x ∷ []) ys xs-right)
          (Apart-append xs g ys xs-g (Apart-right xs (x ∷ []) ys xs-right)))

module _ (scene : Scene) (drawables : List ℕ) (once : StandOnce drawables) where
  open scene use {active, drawable, placement}

  -- The targets whose drawables are still to be placed, and the list so far.
  pub record IsPlaced (ts order : List ℕ) (s : Links) : Type 0 where
    pub main : Linked s.prev s.next none order none
    pub ends : s.last_drawable ≡ last_of none order
    pub distinct : StandOnce order
    pub owned : All (λ d. All (λ t. active d ≢ some t) ts) order
    pub groups : All (λ t. IsList s (group scene t drawables) (s.first t) (s.last t)) ts

  -- A drawable of `t` is none of a list whose drawables are not.
  away_from :
      (t k : ℕ) (order : List ℕ)
      → active k ≡ some t
      → All (λ d. active d ≢ some t) order
      → Misses k order
  away_from t k [] e h = tt
  away_from t k (d ∷ order) e (ne, h) =
      ((λ q. ne (subst (λ y. active y ≡ some t) (sym q) e)), away_from t k order e h)

  owned-Apart :
      (t : ℕ) (zs order : List ℕ)
      → All (λ d. active d ≡ some t) zs
      → All (λ d. active d ≢ some t) order
      → Apart zs order
  owned-Apart t [] order e h = tt
  owned-Apart t (z ∷ zs) order (e, es) h = (away_from t z order e h, owned-Apart t zs order es h)

  abbrev pub IsFree : List ℕ → ℕ → Type 0
  IsFree ts d = All (λ t. active d ≢ some t) ts

  free_of :
      (t : ℕ) (ts order : List ℕ) → All (IsFree (t ∷ ts)) order → All (λ d. active d ≢ some t) order
  free_of t ts [] h = tt
  free_of t ts (d ∷ order) ((ne, _), h) = (ne, free_of t ts order h)

  pub IsFree-rest :
      (t : ℕ) (ts order : List ℕ) → All (IsFree (t ∷ ts)) order → All (IsFree ts) order
  IsFree-rest t ts [] h = tt
  IsFree-rest t ts (d ∷ order) ((_, f), h) = (f, IsFree-rest t ts order h)

  owned-IsFree :
      (t : ℕ) (ts zs : List ℕ) → Misses t ts → All (λ d. active d ≡ some t) zs → All (IsFree ts) zs
  owned-IsFree t ts [] new h = tt
  owned-IsFree t ts (z ∷ zs) new (e, h) = (each ts new, owned-IsFree t ts zs new h)
    where
      some_eq : (o : ℕ) → some t ≡ some o → o ≡ t
      some_eq o e = cc

      each : (ts : List ℕ) → Misses t ts → IsFree ts z
      each [] m = tt
      each (o ∷ ts) (ne, m) = ((λ q. ne (some_eq o (sym e ∙ q))), each ts m)

  spared :
      (s u : Links) (order g zs : List ℕ)
      → ((y : ℕ) → Misses y order → Misses y g → (u.prev y ≡ s.prev y) × (u.next y ≡ s.next y))
      → Apart zs order
      → Apart zs g
      → All (λ y. (u.prev y ≡ s.prev y) × (u.next y ≡ s.next y)) zs
  spared s u order g [] same a b = tt
  spared s u order g (z ∷ zs) same (m, a) (n, b) = (same z m n, spared s u order g zs same a b)

  -- The lists of the other targets stay.
  other_groups :
      (s u : Links) (t : ℕ) (ts order : List ℕ)
      → ((y : ℕ)
          → Misses y order
          → Misses y (group scene t drawables)
          → (u.prev y ≡ s.prev y) × (u.next y ≡ s.next y))
      → u.first ≡ s.first
      → u.last ≡ s.last
      → Misses t ts
      → All (IsFree ts) order
      → All (λ t. IsList s (group scene t drawables) (s.first t) (s.last t)) ts
      → All (λ t. IsList u (group scene t drawables) (u.first t) (u.last t)) ts
  other_groups s u t [] order same f la new free lists = tt
  other_groups s u t (o ∷ ts) order same f la (o-t, new) free ((linked, first, last), lists) =
      let zs = group scene o drawables in
      (
        (
          Linked-same s.prev s.next u.prev u.next none zs none
              (spared s u order (group scene t drawables) zs same
                (owned-Apart o zs order (group-owned scene o drawables) (free_of o ts order free))
                (Apart-sym (group scene t drawables) zs
                  (not_owned (group scene t drawables) (group-owned scene t drawables))))
              linked,
          ap (λ h. h o) f ∙ first,
          ap (λ h. h o) la ∙ last,
        ),
        other_groups s u t ts order same f la new (IsFree-rest o ts order free) lists,
      )
    where
      differ : some t ≡ some o → o ≡ t
      differ e = cc

      not_owned :
          (ks : List ℕ) → All (λ d. active d ≡ some t) ks → Apart ks (group scene o drawables)
      not_owned [] h = tt
      not_owned (k ∷ ks) (e, h) = (
        owned-Misses scene k (some o) (group scene o drawables) (group-owned scene o drawables)
            (λ q. o-t (differ (sym e ∙ q))),
        not_owned ks h,
      )

  module _ (x t : ℕ) (ts xs ys : List ℕ) (g : ℕ) (gs : List ℕ) (s : Links)
      (e : group scene t drawables ≡ g ∷ gs) (new : Misses t ts)
      (is : IsPlaced (t ∷ ts) (xs ++ x ∷ ys) s) where
    group_owned : All (λ d. active d ≡ some t) (g ∷ gs)
    group_owned = subst (λ l. All (λ d. active d ≡ some t) l) e (group-owned scene t drawables)

    group-order : Apart (g ∷ gs) (xs ++ x ∷ ys)
    group-order =
        owned-Apart t (g ∷ gs) (xs ++ x ∷ ys) group_owned (free_of t ts (xs ++ x ∷ ys) is.owned)

    group_once : StandOnce (g ∷ gs)
    group_once = subst StandOnce e (StandOnce-group scene t drawables once)

    -- The invariant for the longer list, from the splice.
    longer :
        (l : ℕ) (u : Links) (list : List ℕ)
        → Linked u.prev u.next none list none
        → u.last_drawable ≡ last_of none list
        → Spares xs x ys g gs l s u
        → StandOnce list
        → All (IsFree ts) list
        → IsPlaced ts list u
    longer l u list main ends (same, f, la, c) distinct free = record {
      main = main;
      ends = ends;
      distinct = distinct;
      owned = free;
      groups =
          other_groups s u t ts (xs ++ x ∷ ys)
            (subst
              (λ ks.
                (y : ℕ)
                → Misses y (xs ++ x ∷ ys)
                → Misses y ks
                → (u.prev y ≡ s.prev y) × (u.next y ≡ s.next y))
              (sym e) same)
            f la new (IsFree-rest t ts (xs ++ x ∷ ys) is.owned) is.groups.1;
    }

    IsFree-parts : All (IsFree ts) xs × All (IsFree ts) (x ∷ ys) × All (IsFree ts) (g ∷ gs)
    IsFree-parts =
        let free = IsFree-rest t ts (xs ++ x ∷ ys) is.owned in
        (
          All-left (IsFree ts) xs (x ∷ ys) free,
          All-right (IsFree ts) xs (x ∷ ys) free,
          owned-IsFree t ts (g ∷ gs) new group_owned,
        )

    pub place_at :
        (at : Placement)
        → Misses x xs
        → (u : Links) × (splice_at at x g (s.last t) s ≡ some u)
          × IsPlaced ts (place at x (g ∷ gs) (xs ++ x ∷ ys)) u
          × (u.changed ≡ s.changed)
    unfolding splice_at
    place_at at away =
        let (l, el) = last_of-some g gs in
        let (list, first, last) = is.groups.0 in
        let last_l : s.last t ≡ some l = last ∙ ap (λ ks. last_of none ks) e ∙ el in
        let linked = subst (λ ks. Linked s.prev s.next none ks none) e list in
        let are : AreApart xs x ys g gs l = record {
          once = is.distinct;
          group_once = group_once;
          apart = group-order;
          ends = el;
        } in
        placed at l last_l linked are
      where
        placed :
            (at : Placement) (l : ℕ)
            → s.last t ≡ some l
            → Linked s.prev s.next none (g ∷ gs) none
            → AreApart xs x ys g gs l
            → (u : Links) × (splice_at at x g (s.last t) s ≡ some u)
              × IsPlaced ts (place at x (g ∷ gs) (xs ++ x ∷ ys)) u
              × (u.changed ≡ s.changed)
        placed before l last_l linked are =
            let (u, run, main, ends, spares) = splice_before xs x ys g gs l are s is.main linked in
            let (free_xs, free_ys, free_g) = IsFree-parts in
            let same_end =
              last_of-append none xs (x ∷ ys)
              ∙ sym (
                  last_of-append none xs (g ∷ gs ++ x ∷ ys)
                  ∙ last_of-append (some g) gs (x ∷ ys)) in
            (
              u,
              ap (λ v. splice_at before x g v s) last_l ∙ run,
              subst (λ o. IsPlaced ts o u) (sym (place-before x (g ∷ gs) xs ys away))
                  (longer l u (xs ++ (g ∷ gs ++ x ∷ ys)) main (ends ∙ is.ends ∙ same_end) spares
                    (once_before xs x ys (g ∷ gs) is.distinct group_once group-order)
                    (All-append (IsFree ts) xs (g ∷ gs ++ x ∷ ys) free_xs
                      (All-append (IsFree ts) (g ∷ gs) (x ∷ ys) free_g free_ys))),
              spares.3,
            )
        placed neither l last_l linked are = (
          s,
          refl,
          subst (λ o. IsPlaced ts o s) (sym (place_neither x (g ∷ gs) (xs ++ x ∷ ys)))
              (record {
                main = is.main;
                ends = is.ends;
                distinct = is.distinct;
                owned = IsFree-rest t ts (xs ++ x ∷ ys) is.owned;
                groups = is.groups.1;
              }),
          refl,
        )
        placed after l last_l linked are =
            let (u, run, main, ends, spares) =
              splice_after xs x ys g gs l are s is.main linked is.ends in
            let (free_xs, free_ys, free_g) = IsFree-parts in
            (
              u,
              ap (λ v. splice_at after x g v s) last_l ∙ run,
              subst (λ o. IsPlaced ts o u) (sym (place-after x (g ∷ gs) xs ys away))
                  (longer l u (xs ++ x ∷ (g ∷ gs ++ ys)) main ends spares
                    (once_after xs x ys (g ∷ gs) is.distinct group_once group-order)
                    (All-append (IsFree ts) xs (x ∷ (g ∷ gs ++ ys)) free_xs
                      (free_ys.0, All-append (IsFree ts) (g ∷ gs) ys free_g free_ys.1))),
              spares.3,
            )
