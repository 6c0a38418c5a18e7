-- ===== src/Importers/File/Resolved.antt =====
-- The importers that an ImportStack resolves (include/rive/importers/import_stack.hpp).
use rive_cpp_legacy.Prelude.{
  ℕ, ◌+◌, ◌≡◌, ◌≢◌, ap, subst, ◌∙◌, inl, inr, Bool, true, false, List, [], ◌∷◌, Option, none, some,
  arith, Bool-cases, Option-cases, ◌==◌, if◌then◌else◌, All, count, count-append,
}
use rive_cpp_legacy.Importers.Stack.{is_ok, Objects}
use rive_cpp_legacy.Importers.Stack.Entries.{Entries, lookup, remove, objects_of, objects_of-append}
use rive_cpp_legacy.Importers.Stack.Promised.{put, replace, resolve_newest}
use rive_cpp_legacy.Importers.File.Logged.{logged_objects}

abbrev pub added_list : Option ℕ → List ℕ
added_list none = []
added_list (some o) = o ∷ []

pub count-fresh : (g : ℕ) (xs : List ℕ) → count g xs ≡ 0 → All (λ x. x ≢ g) xs
count-fresh g [] h = tt
count-fresh g (x ∷ xs) h = elim (Bool-cases (g == x)) [
  | inl same ↦ absurd (ground (arith, same, h))
  | inr other ↦ ((λ e. ground (arith, other, e)), count-fresh g xs (ground (arith, other, h)))
]

count-put :
    (g key : ℕ) (added : Option ℕ) (entries : Entries)
    → count g (objects_of (put key added entries))
      ≡ count g (objects_of entries) + count g (added_list added)
count-put g key none entries = omega arith
count-put g key (some o) entries =
    ap (count g) (objects_of-append entries key o) ∙ count-append g (objects_of entries) (o ∷ [])

count-remove :
    (g key old : ℕ) (entries : Entries)
    → lookup key entries ≡ some old
    → count g (objects_of entries) ≡ count g (old ∷ []) + count g (objects_of (remove key entries))
count-remove g key old [] h = cc
count-remove g key old ((k, o) ∷ rest) h = elim (Bool-cases (k == key)) [
  | inl here ↦
      let e : some o ≡ some old =
        subst (λ b. (if b then some o else lookup key rest) ≡ some old) here h in
      rw here (ground (arith, same e))
  | inr other ↦
      let h' = subst (λ b. (if b then some o else lookup key rest) ≡ some old) other h in
      rw other (ground (arith, count-remove g key old rest h'))
]
  where
    same : some o ≡ some old → o ≡ old
    same e = cc

module _ {World : Type 0} (objects : Objects World) where
  abbrev both : ℕ → Entries × (World × List ℕ) → ℕ
  both g (entries, w) = count g w.1 + count g (objects_of entries)

  -- An object that leaves the sequence of entries is resolved.
  pub replace-count :
      (g key : ℕ) (added : Option ℕ) (entries : Entries) (w : World × List ℕ)
      → is_ok (replace (logged_objects objects) key added entries w).0 ≡ true
      → both g (replace (logged_objects objects) key added entries w).1
        ≡ both g (entries, w) + count g (added_list added)
  unfolding replace
  replace-count g key added entries w h = elim (Option-cases (lookup key entries)) [
    | inl absent ↦ rw (absent, replace) (omega (arith, count-put g key added entries))
    | inr (old, here) ↦ elim (Bool-cases (is_ok (objects.resolve_object old w.0).0)) [
      | inl fine ↦
          rw (here, replace, fine)
            (ground (
              arith,
              count-put g key added (remove key entries),
              count-remove g key old entries here,
            ))
      | inr failed ↦ absurd (not_ok failed (rw (here, replace, failed) at h))
    ]
  ]
    where
      not_ok : {b : Bool} → b ≡ false → b ≡ true → ⊥
      not_ok e e' = cc

  pub count-resolve_newest :
      (g : ℕ) (entries : Entries) (w : World × List ℕ)
      → is_ok (resolve_newest (logged_objects objects) entries w).0 ≡ true
      → count g (resolve_newest (logged_objects objects) entries w).1.1
        ≡ count g w.1 + count g (objects_of entries)
  unfolding resolve_newest
  count-resolve_newest g [] w h = omega arith
  count-resolve_newest g ((key, o) ∷ newer) w h =
      let r = resolve_newest (logged_objects objects) newer w in
      elim (Bool-cases (is_ok r.0)) [
        | inl fine ↦ rw fine (ground (arith, count-resolve_newest g newer w fine))
        | inr failed ↦ absurd (not_ok failed (rw failed at h))
      ]
    where
      not_ok : {b : Bool} → b ≡ false → b ≡ true → ⊥
      not_ok e e' = cc
