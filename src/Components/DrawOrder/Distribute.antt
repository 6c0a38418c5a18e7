-- ===== src/Components/DrawOrder/Distribute.antt =====
-- What the first loop of sortDrawOrder (src/artboard.cpp) has made of the drawables so far.
use mathlib.Core.List.{append-nil, append_assoc}
use rive_cpp_legacy.Prelude.{
  ℕ, ◌≡◌, ◌≢◌, refl, sym, ap, subst, ◌∙◌, ◌⊎◌, inl, inr, true, false, List, [], ◌∷◌, ◌++◌, Option,
  none, some, if◌then◌else◌, ◌==◌, ==_iff, Bool-cases, arith, All, contains, last_of,
  last_of-append,
}
use rive_cpp_legacy.Prelude.Fallible.{◌>>=◌}
use rive_cpp_legacy.Components.DrawOrder.{
  Links, is_same, join_target, append_behind, add_drawable, distribute, Scene,
}
use rive_cpp_legacy.Components.DrawOrder.Segments.{
  Linked, Misses, StandOnce, All_last, StandOnce_left, StandOnce-Apart, Apart-sym,
}
use rive_cpp_legacy.Components.DrawOrder.Order.{
  group, plain, has_none, group-append, plain-append, All-group, All-plain, StandOnce-group,
  StandOnce-plain, group-owned, plain-owned, owned-Misses,
}
use rive_cpp_legacy.Components.DrawOrder.Groups.{
  IsList, Joined, snoc-Linked, spared-Linked, append_behind-Extends, append_behind_rest,
  join_target-Joined,
}

module _ (scene : Scene) (targets : List ℕ) where
  open scene use {active}

  -- A target that is active is one of the artboard's.
  abbrev pub IsKnown : Option ℕ → Type 0
  IsKnown none = Unit
  IsKnown (some t) = contains targets t ≡ true

  pub record IsDistributed (placed : List ℕ) (s : Links) : Type 0 where
    pub main : Linked s.prev s.next none (plain scene placed) none
    pub ends : s.last_drawable ≡ last_of none (plain scene placed)
    pub groups :
        (t : ℕ) → contains targets t ≡ true → IsList s (group scene t placed) (s.first t) (s.last t)

  none_ne_some : (t : ℕ) → none ≢ some t
  none_ne_some t e = cc

  last_plain :
      (placed : List ℕ) (l : ℕ) → last_of none (plain scene placed) ≡ some l → active l ≡ none
  last_plain placed l e =
      All_last (λ y. active y ≡ none) (plain scene placed) l (plain-owned scene placed) e

  last_group :
      (t : ℕ) (placed : List ℕ) (l : ℕ)
      → last_of none (group scene t placed) ≡ some l
      → active l ≡ some t
  last_group t placed l e =
      All_last (λ y. active y ≡ some t) (group scene t placed) l (group-owned scene t placed) e

  module _ (placed : List ℕ) (d : ℕ) where
    plain_more : active d ≡ none → plain scene (placed ++ d ∷ []) ≡ plain scene placed ++ d ∷ []
    plain_more e =
        plain-append scene placed (d ∷ [])
        ∙ ap (λ o. plain scene placed ++ (if has_none scene o then d ∷ [] else [])) e

    plain_same : (t : ℕ) → active d ≡ some t → plain scene (placed ++ d ∷ []) ≡ plain scene placed
    plain_same t e =
        plain-append scene placed (d ∷ [])
        ∙ ap (λ o. plain scene placed ++ (if has_none scene o then d ∷ [] else [])) e
        ∙ append-nil (plain scene placed)

    group_more :
        (t : ℕ)
        → active d ≡ some t
        → group scene t (placed ++ d ∷ []) ≡ group scene t placed ++ d ∷ []
    group_more t e =
        group-append scene t placed (d ∷ [])
        ∙ ap (λ o. group scene t placed ++ (if is_same o t then d ∷ [] else [])) e
        ∙ ap (λ b. group scene t placed ++ (if b then d ∷ [] else [])) ((==_iff t t).1 refl)

    group_same :
        (t : ℕ) (o : Option ℕ)
        → active d ≡ o
        → is_same o t ≡ false
        → group scene t (placed ++ d ∷ []) ≡ group scene t placed
    group_same t o e other =
        group-append scene t placed (d ∷ [])
        ∙ ap (λ o. group scene t placed ++ (if is_same o t then d ∷ [] else [])) e
        ∙ ap (λ b. group scene t placed ++ (if b then d ∷ [] else [])) other
        ∙ append-nil (group scene t placed)

    module _ (once : StandOnce placed) (new : Misses d placed) (s : Links)
        (is : IsDistributed placed s) where
      plain_step :
          active d ≡ none → IsDistributed (placed ++ d ∷ []) (append_behind s.last_drawable d s)
      plain_step e =
          let u = append_behind s.last_drawable d s in
          let ext =
            append_behind-Extends s.last_drawable s (plain scene placed) d
              (All-plain scene (λ y. y ≢ d) placed new) is.ends in
          let (moved, f, la, c) = append_behind_rest s.last_drawable s d in
          record {
            main =
                subst (λ xs. Linked u.prev u.next none xs none) (sym (plain_more e))
                  (snoc-Linked s u (plain scene placed) d (StandOnce-plain scene placed once)
                    (All-plain scene (λ y. y ≢ d) placed new) ext is.main);
            ends =
                moved
                ∙ sym (last_of-append none (plain scene placed) (d ∷ []))
                ∙ ap (λ xs. last_of none xs) (sym (plain_more e));
            groups = λ t known.
                let (linked, first, last) = is.groups t known in
                subst (λ xs. IsList u xs (u.first t) (u.last t)) (sym (group_same t none e refl))
                  (
                    spared-Linked s u (plain scene placed) (group scene t placed) d ext
                        (All-group scene (λ y. y ≢ d) t placed new)
                        (λ l h.
                          owned-Misses scene l (some t) (group scene t placed)
                            (group-owned scene t placed)
                            (λ k. none_ne_some t (sym (last_plain placed l h) ∙ k)))
                        linked,
                    ap (λ g. g t) f ∙ first,
                    ap (λ g. g t) la ∙ last,
                  );
          }

      group_step :
          (t : ℕ)
          → active d ≡ some t
          → (u : Links) → Joined t d (group scene t placed) s u
          → contains targets t ≡ true
          → IsDistributed (placed ++ d ∷ []) u
      group_step t e u (ext, first, last, others, same, c) known = record {
        main =
            subst (λ xs. Linked u.prev u.next none xs none) (sym (plain_same t e))
              (spared-Linked s u (group scene t placed) (plain scene placed) d ext
                (All-plain scene (λ y. y ≢ d) placed new)
                (λ l h.
                  owned-Misses scene l none (plain scene placed) (plain-owned scene placed)
                    (λ k. none_ne_some t (sym k ∙ last_group t placed l h)))
                is.main);
        ends = same ∙ is.ends ∙ ap (λ xs. last_of none xs) (sym (plain_same t e));
        groups = λ o known_o. at o known_o (Bool-cases (t == o));
      }
        where
          other : (o : ℕ) → (t == o) ≡ false → t ≢ o
          other o away q = ground (arith, away, q)

          apart : (o : ℕ) → (t == o) ≡ false → some t ≢ some o
          apart o away q = ground (arith, away, q)

          at :
              (o : ℕ)
              → contains targets o ≡ true
              → ((t == o) ≡ true) ⊎ ((t == o) ≡ false)
              → IsList u (group scene o (placed ++ d ∷ [])) (u.first o) (u.last o)
          at o known_o (inl here) =
              subst (λ o. IsList u (group scene o (placed ++ d ∷ [])) (u.first o) (u.last o))
                ((==_iff t o).0 here)
                (subst (λ xs. IsList u xs (u.first t) (u.last t)) (sym (group_more t e))
                  (
                    snoc-Linked s u (group scene t placed) d (StandOnce-group scene t placed once)
                        (All-group scene (λ y. y ≢ d) t placed new) ext (is.groups t known).0,
                    first,
                    last ∙ sym (last_of-append none (group scene t placed) (d ∷ [])),
                  ))
          at o known_o (inr away) =
              let (linked, first_o, last_o) = is.groups o known_o in
              subst (λ xs. IsList u xs (u.first o) (u.last o)) (sym (group_same o (some t) e away))
                (
                  spared-Linked s u (group scene t placed) (group scene o placed) d ext
                      (All-group scene (λ y. y ≢ d) o placed new)
                      (λ l h.
                        owned-Misses scene l (some o) (group scene o placed)
                          (group-owned scene o placed)
                          (λ k. apart o away (sym (last_group t placed l h) ∙ k)))
                      linked,
                  (others o (λ q. other o away (sym q))).0 ∙ first_o,
                  (others o (λ q. other o away (sym q))).1 ∙ last_o,
                )

      add-IsDistributed :
          (o : Option ℕ)
          → active d ≡ o
          → IsKnown o
          → (u : Links) × (add_drawable o d s ≡ some u)
            × IsDistributed (placed ++ d ∷ []) u
            × (u.changed ≡ s.changed)
      unfolding add_drawable
      add-IsDistributed none e known = (
        append_behind s.last_drawable d s,
        refl,
        plain_step e,
        (append_behind_rest s.last_drawable s d).3,
      )
      add-IsDistributed (some t) e known =
          let (linked, first, last) = is.groups t known in
          let (u, run, joined) =
            join_target-Joined t d (group scene t placed) s
              (All-group scene (λ y. y ≢ d) t placed new) first last in
          (u, ap (λ f. join_target f t d s) first ∙ run, group_step t e u joined known, joined.5)

  pub distribute-IsDistributed :
      (ds placed : List ℕ) (s : Links)
      → StandOnce (placed ++ ds)
      → All (λ d. IsKnown (active d)) ds
      → IsDistributed placed s
      → (u : Links) × (distribute scene ds s ≡ some u)
        × IsDistributed (placed ++ ds) u
        × (u.changed ≡ s.changed)
  unfolding distribute
  distribute-IsDistributed [] placed s once known is =
      (s, refl, subst (λ xs. IsDistributed xs s) (sym (append-nil placed)) is, refl)
  distribute-IsDistributed (d ∷ ds) placed s once (here, known) is =
      let regroup = append_assoc placed (d ∷ []) ds in
      let new = (Apart-sym placed (d ∷ ds) (StandOnce-Apart placed (d ∷ ds) once)).0 in
      let (u, e, is', same) =
        add-IsDistributed placed d (StandOnce_left placed (d ∷ ds) once) new s is (active d) refl
          here in
      let (v, e', is'', same') =
        distribute-IsDistributed ds (placed ++ d ∷ []) u (subst StandOnce (sym regroup) once) known
          is' in
      (
        v,
        ap (λ o. o >>= λ s'. distribute scene ds s') e ∙ e',
        subst (λ xs. IsDistributed xs v) regroup is'',
        same' ∙ same,
      )
