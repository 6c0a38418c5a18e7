-- ===== src/Components/DrawOrder/Groups.antt =====
-- The first loop of sortDrawOrder (src/artboard.cpp): each drawable joins its target's list or the
-- list of the others.
use rive_cpp_legacy.Prelude.{
  ℕ, ◌≡◌, ◌≢◌, refl, sym, ap, subst, ◌∙◌, List, [], ◌∷◌, ◌++◌, Option, none, some, All, last_of,
}
use rive_cpp_legacy.Prelude.Fallible.{◌>>=◌}
use rive_cpp_legacy.Components.DrawOrder.{
  Links, update, set_prev, set_next, set_next_of, join_target, append_behind,
}
use rive_cpp_legacy.Components.DrawOrder.Segments.{
  head_or, Linked, Misses, StandOnce, update_ne, update_eq, Linked-same, Linked-snoc, All_last,
  last_of-some,
}

-- A list with the pointers to its first and last member.
abbrev pub IsList : Links → List ℕ → Option ℕ → Option ℕ → Type 0
IsList s xs first last =
    Linked s.prev s.next none xs none × (first ≡ head_or none xs) × (last ≡ last_of none xs)

-- The links of `d` are new, and those that lead to it from the last of `xs`.
abbrev pub Extends : Links → Links → List ℕ → ℕ → Type 0
Extends s t xs d =
    ((y : ℕ) → y ≢ d → t.prev y ≡ s.prev y)
    × ((y : ℕ) → y ≢ d → ((l : ℕ) → last_of none xs ≡ some l → y ≢ l) → t.next y ≡ s.next y)
    × ((l : ℕ) → last_of none xs ≡ some l → l ≢ d → t.next l ≡ some d)
    × (t.prev d ≡ last_of none xs)
    × (t.next d ≡ none)

pub snoc-Linked :
    (s t : Links) (xs : List ℕ) (d : ℕ)
    → StandOnce xs
    → Misses d xs
    → Extends s t xs d
    → Linked s.prev s.next none xs none
    → Linked t.prev t.next none (xs ++ d ∷ []) none
snoc-Linked s t [] d once away (sp, sn, nl, pd, nd) k = (pd, nd, tt)
snoc-Linked s t (x ∷ xs) d once away (sp, sn, nl, pd, nd) k =
    let (l, e) = last_of-some x xs in
    Linked-snoc s.prev s.next t.prev t.next none (x ∷ xs) l d once away e sp
      (λ y ne nl'. sn y ne (λ m e' same. nl' (same ∙ one m l (sym e' ∙ e))))
      (nl l e (All_last (λ y. y ≢ d) (x ∷ xs) l away e)) (pd ∙ e) nd k
  where
    one : (m l : ℕ) → some m ≡ some l → m ≡ l
    one m l e = cc

-- Another list, of which `d` and the list's last are no members.
pub spared-Linked :
    (s t : Links) (xs zs : List ℕ) (d : ℕ)
    → Extends s t xs d
    → Misses d zs
    → ((l : ℕ) → last_of none xs ≡ some l → Misses l zs)
    → Linked s.prev s.next none zs none
    → Linked t.prev t.next none zs none
spared-Linked s t xs zs d (sp, sn, nl, pd, nd) away other k =
    Linked-same s.prev s.next t.prev t.next none zs none (same zs away other) k
  where
    same :
        (zs : List ℕ)
        → Misses d zs
        → ((l : ℕ) → last_of none xs ≡ some l → Misses l zs)
        → All (λ y. (t.prev y ≡ s.prev y) × (t.next y ≡ s.next y)) zs
    same [] m o = tt
    same (z ∷ zs) (ne, m) o =
        ((sp z ne, sn z ne (λ l e q. (o l e).0 q)), same zs m (λ l e. (o l e).1))

unlike_last : (xs : List ℕ) (d l : ℕ) → Misses d xs → some l ≡ last_of none xs → l ≢ d
unlike_last xs d l away e = All_last (λ y. y ≢ d) xs l away (sym e)

some_eq : (m l : ℕ) → some m ≡ some l → m ≡ l
some_eq m l e = cc

none-some : {l : ℕ} → none ≡ some l → ⊥
none-some e = cc

pub append_behind-Extends :
    (v : Option ℕ) (s : Links) (xs : List ℕ) (d : ℕ)
    → Misses d xs
    → v ≡ last_of none xs
    → Extends s (append_behind v d s) xs d
unfolding append_behind
append_behind-Extends none s xs d away e = (
  (λ y ne. update_ne s.prev d y none ne),
  (λ y ne o. update_ne s.next d y none ne),
  (λ l h ne. absurd (none-some (e ∙ h))),
  update_eq s.prev d none ∙ e,
  update_eq s.next d none,
)
append_behind-Extends (some l) s xs d away e = (
  (λ y ne. update_ne s.prev d y (some l) ne),
  (λ y ne o.
      update_ne (update s.next d none) l y (some d) (o l (sym e)) ∙ update_ne s.next d y none ne),
  (λ m h ne.
      subst (λ k. update (update s.next d none) l (some d) k ≡ some d) (some_eq l m (e ∙ h))
        (update_eq (update s.next d none) l (some d))),
  update_eq s.prev d (some l) ∙ e,
  update_ne (update s.next d none) l d (some d) (λ q. unlike_last xs d l away e (sym q))
      ∙ update_eq s.next d none,
)

pub append_behind_rest :
    (v : Option ℕ) (s : Links) (d : ℕ)
    → ((append_behind v d s).last_drawable ≡ some d)
      × ((append_behind v d s).first ≡ s.first)
      × ((append_behind v d s).last ≡ s.last)
      × ((append_behind v d s).changed ≡ s.changed)
unfolding append_behind
append_behind_rest none s d = (refl, refl, refl, refl)
append_behind_rest (some l) s d = (refl, refl, refl, refl)

-- What joining the target `t` leaves.
abbrev pub Joined : ℕ → ℕ → List ℕ → Links → Links → Type 0
Joined t d xs s u =
    Extends s u xs d
    × (u.first t ≡ head_or none (xs ++ d ∷ []))
    × (u.last t ≡ some d)
    × ((o : ℕ) → o ≢ t → (u.first o ≡ s.first o) × (u.last o ≡ s.last o))
    × (u.last_drawable ≡ s.last_drawable)
    × (u.changed ≡ s.changed)

pub join_target-Joined :
    (t d : ℕ) (xs : List ℕ) (s : Links)
    → Misses d xs
    → s.first t ≡ head_or none xs
    → s.last t ≡ last_of none xs
    → (u : Links) × (join_target (head_or none xs) t d s ≡ some u) × Joined t d xs s u
unfolding join_target
join_target-Joined t d [] s away first last =
    let s0 = record s { first = update s.first t (some d); last = update s.last t (some d) } in
    (
      set_next d none (set_prev d none s0),
      refl,
      (
        (
          (λ y ne. update_ne s.prev d y none ne),
          (λ y ne o. update_ne s.next d y none ne),
          (λ l h ne. absurd (none-some h)),
          update_eq s.prev d none,
          update_eq s.next d none,
        ),
        update_eq s.first t (some d),
        update_eq s.last t (some d),
        (λ o ne. (update_ne s.first t o (some d) ne, update_ne s.last t o (some d) ne)),
        refl,
        refl,
      ),
    )
join_target-Joined t d (x ∷ xs) s away first last =
    let (l, e) = last_of-some x xs in
    let ends : s.last t ≡ some l = last ∙ e in
    let s1 = set_next l (some d) s in
    let l-d = unlike_last (x ∷ xs) d l away (sym e) in
    (
      set_next d none (record (set_prev d (s.last t) s1) { last = update s.last t (some d) }),
      ap
          (λ v. set_next_of v (some d) s >>= λ s1. some (
            set_next d none
              (record (set_prev d (s1.last t) s1) { last = update s1.last t (some d) })))
          ends,
      (
        (
          (λ y ne. update_ne s.prev d y (s.last t) ne),
          (λ y ne o.
              update_ne (update s.next l (some d)) d y none ne
              ∙ update_ne s.next l y (some d) (o l e)),
          (λ m h ne.
              update_ne (update s.next l (some d)) d m none ne
              ∙ subst (λ k. update s.next l (some d) k ≡ some d) (some_eq l m (sym e ∙ h))
                  (update_eq s.next l (some d))),
          update_eq s.prev d (s.last t) ∙ last,
          update_eq (update s.next l (some d)) d none,
        ),
        first,
        update_eq s.last t (some d),
        (λ o ne. (refl, update_ne s.last t o (some d) ne)),
        refl,
        refl,
      ),
    )
