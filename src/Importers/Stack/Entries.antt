-- ===== src/Importers/Stack/Entries.antt =====
-- The sequence of keyed objects that an ImportStack (include/rive/importers/import_stack.hpp) stands
-- for.
use rive_cpp_legacy.Prelude.{
  ℕ, ◌≡◌, ◌≢◌, refl, sym, ap, subst, ◌∙◌, inl, inr, true, false, List, [], ◌∷◌, ◌++◌, Option, none,
  some, arith, Bool-cases, ==_iff, if◌then◌else◌, ◌==◌, All,
}
use rive_cpp_legacy.Importers.Stack.{erase_first}

-- The objects with their keys, in the order in which they were added.
abbrev pub Entries : Type 0
Entries = List (ℕ × ℕ)

abbrev pub lookup : ℕ → Entries → Option ℕ
lookup key [] = none
lookup key ((k, o) ∷ rest) = if k == key then some o else lookup key rest

abbrev pub remove : ℕ → Entries → Entries
remove key [] = []
remove key ((k, o) ∷ rest) = if k == key then rest else (k, o) ∷ remove key rest

abbrev pub objects_of : Entries → List ℕ
objects_of [] = []
objects_of ((k, o) ∷ rest) = o ∷ objects_of rest

abbrev pub Differs : ℕ → ℕ → ℕ × ℕ → Type 0
Differs key object (k, o) = (k ≢ key) × (o ≢ object)

-- No key and no object stands twice.
abbrev pub AreDistinct : Entries → Type 0
AreDistinct [] = Unit
AreDistinct ((k, o) ∷ rest) = All (Differs k o) rest × AreDistinct rest

lookup_absent :
    (key object : ℕ) (entries : Entries)
    → All (Differs key object) entries
    → lookup key entries ≡ none
lookup_absent key object [] all = refl
lookup_absent key object ((k, o) ∷ rest) ((away, _), all) = elim (Bool-cases (k == key)) [
  | inl here ↦ absurd (away ((==_iff k key).0 here))
  | inr other ↦ rw other (lookup_absent key object rest all)
]

pub lookup_removed :
    (key : ℕ) (entries : Entries) → AreDistinct entries → lookup key (remove key entries) ≡ none
lookup_removed key [] d = refl
lookup_removed key ((k, o) ∷ rest) (all, d) = elim (Bool-cases (k == key)) [
  | inl here ↦
      let e : k ≡ key = (==_iff k key).0 here in
      rw here (subst (λ x. lookup x rest ≡ none) e (lookup_absent k o rest all))
  | inr other ↦ rw (other, other) (lookup_removed key rest d)
]

pub lookup_kept :
    (key x : ℕ) (entries : Entries) → x ≢ key → lookup x (remove key entries) ≡ lookup x entries
lookup_kept key x [] away = refl
lookup_kept key x ((k, o) ∷ rest) away = elim (Bool-cases (k == key)) [
  | inl here ↦ elim (Bool-cases (k == x)) [
    | inl same ↦ absurd (away (sym ((==_iff k x).0 same) ∙ (==_iff k key).0 here))
    | inr differs ↦ rw (here, differs) refl
  ]
  | inr other ↦ elim (Bool-cases (k == x)) [
    | inl same ↦ rw (other, same) refl
    | inr differs ↦ rw (other, differs) (lookup_kept key x rest away)
  ]
]

absent_parts :
    (key k o : ℕ) (rest : Entries)
    → lookup key ((k, o) ∷ rest) ≡ none
    → (k ≢ key) × (lookup key rest ≡ none)
absent_parts key k o rest h = elim (Bool-cases (k == key)) [
  | inl here ↦
      absurd (some_none o (subst (λ b. (if b then some o else lookup key rest) ≡ none) here h))
  | inr other ↦ (
    (λ e. true_false (sym ((==_iff k key).1 e) ∙ other)),
    subst (λ b. (if b then some o else lookup key rest) ≡ none) other h,
  )
]
  where
    some_none : (x : ℕ) → some x ≡ none → ⊥
    some_none x e = cc

    true_false : true ≡ false → ⊥
    true_false e = cc

pub lookup-append :
    (x key object : ℕ) (entries : Entries)
    → lookup key entries ≡ none
    → lookup x (entries ++ (key, object) ∷ [])
      ≡ (if x == key then some object else lookup x entries)
lookup-append x key object [] h = elim (Bool-cases (x == key)) [
  | inl same ↦ rw (same, (==_iff key x).1 (sym ((==_iff x key).0 same))) refl
  | inr differs ↦ rw (differs, no_other differs) refl
]
  where
    no_other : (x == key) ≡ false → (key == x) ≡ false
    no_other differs = ground (arith, differs)
lookup-append x key object ((k, o) ∷ rest) h =
    let (away, h') = absent_parts key k o rest h in
    elim (Bool-cases (k == x)) [
      | inl same ↦ rw (same, not_same away ((==_iff k x).0 same)) refl
      | inr differs ↦ rw differs (lookup-append x key object rest h')
    ]
  where
    not_same : k ≢ key → k ≡ x → (x == key) ≡ false
    not_same away e = ground (arith, away, e)

pub All-remove :
    (P : ℕ × ℕ → Type 0) (key : ℕ) (entries : Entries) → All P entries → All P (remove key entries)
All-remove P key [] all = tt
All-remove P key ((k, o) ∷ rest) (p, all) = elim (Bool-cases (k == key)) [
  | inl here ↦ rw here all
  | inr other ↦ rw other (p, All-remove P key rest all)
]

pub remove-AreDistinct :
    (key : ℕ) (entries : Entries) → AreDistinct entries → AreDistinct (remove key entries)
remove-AreDistinct key [] d = tt
remove-AreDistinct key ((k, o) ∷ rest) (all, d) = elim (Bool-cases (k == key)) [
  | inl here ↦ rw here d
  | inr other ↦ rw other (All-remove (Differs k o) key rest all, remove-AreDistinct key rest d)
]

pub fresh_key :
    (key object : ℕ) (entries : Entries)
    → lookup key entries ≡ none
    → All (λ o. o ≢ object) (objects_of entries)
    → All (Differs key object) entries
fresh_key key object [] h fresh = tt
fresh_key key object ((k, o) ∷ rest) h (new, fresh) =
    let (away, h') = absent_parts key k o rest h in
    ((away, new), fresh_key key object rest h' fresh)

pub append-AreDistinct :
    (key object : ℕ) (entries : Entries)
    → All (Differs key object) entries
    → AreDistinct entries
    → AreDistinct (entries ++ (key, object) ∷ [])
append-AreDistinct key object [] all d = (tt, tt)
append-AreDistinct key object ((k, o) ∷ rest) ((key_away, new), all) (first, d) =
    (last_too rest first, append-AreDistinct key object rest all d)
  where
    last_too : (es : Entries) → All (Differs k o) es → All (Differs k o) (es ++ (key, object) ∷ [])
    last_too [] h = (((λ e. key_away (sym e)), (λ e. new (sym e))), tt)
    last_too (e ∷ es) (h, hs) = (h, last_too es hs)

pub objects_of-append :
    (entries : Entries) (key object : ℕ)
    → objects_of (entries ++ (key, object) ∷ []) ≡ objects_of entries ++ object ∷ []
objects_of-append [] key object = refl
objects_of-append ((k, o) ∷ rest) key object = ap (λ os. o ∷ os) (objects_of-append rest key object)

lookup_away :
    (key old k o : ℕ) (rest : Entries)
    → All (Differs k o) rest
    → lookup key rest ≡ some old
    → o ≢ old
lookup_away key old k o [] all h e = cc
lookup_away key old k o ((k', o') ∷ rest) ((_, other), all) h e = elim (Bool-cases (k' == key)) [
  | inl here ↦
      other (same (subst (λ b. (if b then some o' else lookup key rest) ≡ some old) here h) ∙ sym e)
  | inr differs ↦
      lookup_away key old k o rest all
        (subst (λ b. (if b then some o' else lookup key rest) ≡ some old) differs h) e
]
  where
    same : some o' ≡ some old → o' ≡ old
    same e = cc

-- Erasing the object of a key is removing the key.
pub erase-objects_of :
    (key old : ℕ) (entries : Entries)
    → AreDistinct entries
    → lookup key entries ≡ some old
    → erase_first old (objects_of entries) ≡ objects_of (remove key entries)
unfolding erase_first
erase-objects_of key old [] d h = refl
erase-objects_of key old ((k, o) ∷ rest) (all, d) h = elim (Bool-cases (k == key)) [
  | inl here ↦
      let e : some o ≡ some old =
        subst (λ b. (if b then some o else lookup key rest) ≡ some old) here h in
      rw (here, (==_iff o old).1 (same e)) refl
  | inr differs ↦
      let h' = subst (λ b. (if b then some o else lookup key rest) ≡ some old) differs h in
      rw (differs, not_equal (lookup_away key old k o rest all h'))
        (ap (λ os. o ∷ os) (erase-objects_of key old rest d h'))
]
  where
    same : some o ≡ some old → o ≡ old
    same e = cc

    not_equal : o ≢ old → (o == old) ≡ false
    not_equal away = ground (arith, away)

pub objects_of-remove :
    (P : ℕ → Type 0) (key : ℕ) (entries : Entries)
    → All P (objects_of entries)
    → All P (objects_of (remove key entries))
objects_of-remove P key [] all = tt
objects_of-remove P key ((k, o) ∷ rest) (p, all) = elim (Bool-cases (k == key)) [
  | inl here ↦ rw here all
  | inr other ↦ rw other (p, objects_of-remove P key rest all)
]
