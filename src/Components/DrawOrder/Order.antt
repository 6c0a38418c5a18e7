-- ===== src/Components/DrawOrder/Order.antt =====
-- The order in which an artboard's drawables are to be drawn (src/artboard.cpp), as lists.
use rive_cpp_legacy.Prelude.{
  ℕ, ◌≡◌, ◌≢◌, refl, ap, subst, ◌⊎◌, inl, inr, Bool, true, false, ◌||◌, List, [], ◌∷◌, ◌++◌, Option,
  none, some, if◌then◌else◌, ◌==◌, ==_iff, Bool-cases, arith, All, contains,
}
use rive_cpp_legacy.Components.DrawOrder.{Placement, before, after, neither, Scene, is_same}
use rive_cpp_legacy.Components.DrawOrder.Segments.{Misses, StandOnce}

-- A target's drawables stand right before its own drawable, or right after it, or nowhere.
abbrev pub place : Placement → ℕ → List ℕ → List ℕ → List ℕ
place at x g [] = []
place before x g (y ∷ ys) = if y == x then g ++ y ∷ ys else y ∷ place before x g ys
place neither x g (y ∷ ys) = y ∷ ys
place after x g (y ∷ ys) = if y == x then y ∷ (g ++ ys) else y ∷ place after x g ys

module _ (scene : Scene) where
  open scene use {active, drawable, placement}

  -- The drawables that a target is active for.
  abbrev pub group : ℕ → List ℕ → List ℕ
  group t [] = []
  group t (d ∷ ds) = let rest = group t ds in if is_same (active d) t then d ∷ rest else rest

  abbrev pub has_none : Option ℕ → Bool
  has_none none = true
  has_none (some t) = false

  -- The drawables without an active target.
  abbrev pub plain : List ℕ → List ℕ
  plain [] = []
  plain (d ∷ ds) = let rest = plain ds in if has_none (active d) then d ∷ rest else rest

  -- One target after the other is placed into the list so far.
  abbrev pub drawn : List ℕ → List ℕ → List ℕ → List ℕ
  drawn drawables [] order = order
  drawn drawables (t ∷ ts) order =
      drawn drawables ts (place (placement t) (drawable t) (group t drawables) order)

  -- The drawable of each target that has drawables stands in the list when its turn comes.
  abbrev pub StandsThere : List ℕ → List ℕ → List ℕ → Type 0
  StandsThere drawables [] order = Unit
  StandsThere drawables (t ∷ ts) order =
      ((group t drawables ≡ []) ⊎ (contains order (drawable t) ≡ true))
      × StandsThere drawables ts (place (placement t) (drawable t) (group t drawables) order)

  pub group-append : (t : ℕ) (xs ys : List ℕ) → group t (xs ++ ys) ≡ group t xs ++ group t ys
  group-append t [] ys = refl
  group-append t (x ∷ xs) ys = elim (Bool-cases (is_same (active x) t)) [
    | inl e ↦ rw e (ap (λ l. x ∷ l) (group-append t xs ys))
    | inr e ↦ rw e (group-append t xs ys)
  ]

  pub plain-append : (xs ys : List ℕ) → plain (xs ++ ys) ≡ plain xs ++ plain ys
  plain-append [] ys = refl
  plain-append (x ∷ xs) ys = elim (Bool-cases (has_none (active x))) [
    | inl e ↦ rw e (ap (λ l. x ∷ l) (plain-append xs ys))
    | inr e ↦ rw e (plain-append xs ys)
  ]

  module _ (P : ℕ → Type 0) where
    pub All-group : (t : ℕ) (xs : List ℕ) → All P xs → All P (group t xs)
    All-group t [] h = tt
    All-group t (x ∷ xs) (p, h) = elim (Bool-cases (is_same (active x) t)) [
      | inl e ↦ rw e (p, All-group t xs h)
      | inr e ↦ rw e (All-group t xs h)
    ]

    pub All-plain : (xs : List ℕ) → All P xs → All P (plain xs)
    All-plain [] h = tt
    All-plain (x ∷ xs) (p, h) = elim (Bool-cases (has_none (active x))) [
      | inl e ↦ rw e (p, All-plain xs h)
      | inr e ↦ rw e (All-plain xs h)
    ]

  pub StandOnce-group : (t : ℕ) (xs : List ℕ) → StandOnce xs → StandOnce (group t xs)
  StandOnce-group t [] d = tt
  StandOnce-group t (x ∷ xs) (m, d) = elim (Bool-cases (is_same (active x) t)) [
    | inl e ↦ rw e (All-group (λ y. y ≢ x) t xs m, StandOnce-group t xs d)
    | inr e ↦ rw e (StandOnce-group t xs d)
  ]

  pub StandOnce-plain : (xs : List ℕ) → StandOnce xs → StandOnce (plain xs)
  StandOnce-plain [] d = tt
  StandOnce-plain (x ∷ xs) (m, d) = elim (Bool-cases (has_none (active x))) [
    | inl e ↦ rw e (All-plain (λ y. y ≢ x) xs m, StandOnce-plain xs d)
    | inr e ↦ rw e (StandOnce-plain xs d)
  ]

  is_same-some : (o : Option ℕ) (t : ℕ) → is_same o t ≡ true → o ≡ some t
  is_same-some none t e = cc
  is_same-some (some x) t e = ap (λ y. some y) ((==_iff x t).0 e)

  has_none-none : (o : Option ℕ) → has_none o ≡ true → o ≡ none
  has_none-none none e = refl
  has_none-none (some x) e = cc

  -- Whose a drawable is.
  pub group-owned : (t : ℕ) (xs : List ℕ) → All (λ d. active d ≡ some t) (group t xs)
  group-owned t [] = tt
  group-owned t (x ∷ xs) = elim (Bool-cases (is_same (active x) t)) [
    | inl e ↦ rw e (is_same-some (active x) t e, group-owned t xs)
    | inr e ↦ rw e (group-owned t xs)
  ]

  pub plain-owned : (xs : List ℕ) → All (λ d. active d ≡ none) (plain xs)
  plain-owned [] = tt
  plain-owned (x ∷ xs) = elim (Bool-cases (has_none (active x))) [
    | inl e ↦ rw e (has_none-none (active x) e, plain-owned xs)
    | inr e ↦ rw e (plain-owned xs)
  ]

  pub owned-Misses :
      (k : ℕ) (o : Option ℕ) (xs : List ℕ) → All (λ d. active d ≡ o) xs → active k ≢ o → Misses k xs
  owned-Misses k o [] h away = tt
  owned-Misses k o (x ∷ xs) (e, h) away =
      ((λ same. away (subst (λ y. active y ≡ o) same e)), owned-Misses k o xs h away)

-- The place of an element in a list that has it.
pub split_at :
    (x : ℕ) (order : List ℕ)
    → contains order x ≡ true
    → (xs : List ℕ) × (ys : List ℕ) × (order ≡ xs ++ x ∷ ys) × Misses x xs
split_at x [] h = cc
split_at x (y ∷ order) h = elim (Bool-cases (y == x)) [
  | inl here ↦ ([], order, ap (λ z. z ∷ order) ((==_iff y x).0 here), tt)
  | inr other ↦
      let (xs, ys, e, m) = split_at x order (later other h) in
      (y ∷ xs, ys, ap (λ l. y ∷ l) e, (apart other, m))
]
  where
    apart : (y == x) ≡ false → y ≢ x
    apart other e = ground (arith, other, e)

    later : (y == x) ≡ false → (x == y || contains order x) ≡ true → contains order x ≡ true
    later other h = ground (arith, other, h)

not_same : (y x : ℕ) → y ≢ x → (y == x) ≡ false
not_same y x away = ground (arith, away, ==_iff y x)

pub place-before :
    (x : ℕ) (g xs ys : List ℕ) → Misses x xs → place before x g (xs ++ x ∷ ys) ≡ xs ++ (g ++ x ∷ ys)
place-before x g [] ys m = rw ((==_iff x x).1 refl) refl
place-before x g (y ∷ xs) ys (ne, m) =
    rw (not_same y x ne) (ap (λ l. y ∷ l) (place-before x g xs ys m))

pub place-after :
    (x : ℕ) (g xs ys : List ℕ) → Misses x xs → place after x g (xs ++ x ∷ ys) ≡ xs ++ x ∷ (g ++ ys)
place-after x g [] ys m = rw ((==_iff x x).1 refl) refl
place-after x g (y ∷ xs) ys (ne, m) =
    rw (not_same y x ne) (ap (λ l. y ∷ l) (place-after x g xs ys m))

pub place_neither : (x : ℕ) (g order : List ℕ) → place neither x g order ≡ order
place_neither x g [] = refl
place_neither x g (y ∷ ys) = refl

pub place_nothing : (at : Placement) (x : ℕ) (order : List ℕ) → place at x [] order ≡ order
place_nothing before x [] = refl
place_nothing neither x [] = refl
place_nothing neither x (y ∷ ys) = refl
place_nothing after x [] = refl
place_nothing before x (y ∷ ys) = elim (Bool-cases (y == x)) [
  | inl e ↦ rw e refl
  | inr e ↦ rw e (ap (λ l. y ∷ l) (place_nothing before x ys))
]
place_nothing after x (y ∷ ys) = elim (Bool-cases (y == x)) [
  | inl e ↦ rw e refl
  | inr e ↦ rw e (ap (λ l. y ∷ l) (place_nothing after x ys))
]
