-- ===== src/Components/Dirt/Spread.antt =====
-- How addDirt (src/component.cpp) spreads to the dependents.
use rive_cpp_legacy.Prelude.{
  ℕ, zero, suc, ◌+◌, ◌≤◌, ◌<◌, ◌≡◌, ◌≢◌, refl, sym, ap, subst, ◌∙◌, ◌⊎◌, inl, inr, true, false,
  List, [], ◌∷◌, none, bit_and, and-or_left, and-or_right, arith, Bool-cases, ==_iff, if◌then◌else◌,
  ◌==◌, ltb, All,
}
use rive_cpp_legacy.Components.Dirt.{
  Dirt, Graph, components, or_dirt, has_dirt, on_component_dirty, on_dirty, mark,
}

-- The component has all bits of a value.
abbrev pub Has : Dirt → ℕ → ℕ → Type 0
Has s x value = bit_and (s.dirt x) value ≡ value

-- No component loses dirt.
abbrev pub Adds : Dirt → Dirt → Type 0
Adds s t = (x value : ℕ) → Has s x value → Has t x value

or_dirt-Adds : (c value : ℕ) (s : Dirt) → Adds s (or_dirt c value s)
or_dirt-Adds c value s x w h = elim (Bool-cases (x == c)) [
  | inl here ↦
      let e : x ≡ c = (==_iff x c).0 here in
      rw here (and-or_left (s.dirt c) w value (subst (λ y. Has s y w) e h))
  | inr other ↦ rw other h
]

same_self : (c : ℕ) → (c == c) ≡ true
same_self c = (==_iff c c).1 refl

or_dirt-Has : (c value : ℕ) (s : Dirt) → Has (or_dirt c value s) c value
or_dirt-Has c value s = rw (same_self c) (and-or_right (s.dirt c) value)

-- Other components than the one named stay as they are.
abbrev OnlyAt : ℕ → Dirt → Dirt → Type 0
OnlyAt c s t = (x : ℕ) → x ≢ c → t.dirt x ≡ s.dirt x

or_dirt-OnlyAt : (c value : ℕ) (s : Dirt) → OnlyAt c s (or_dirt c value s)
or_dirt-OnlyAt c value s x away = elim (Bool-cases (x == c)) [
  | inl here ↦ absurd (away ((==_iff x c).0 here))
  | inr other ↦ rw other refl
]

module _ (graph : Graph) where
  open graph use {root, dependents, override}

  -- No component but the Artboard overrides `onDirty`.
  abbrev pub IsPlain : Type 0
  IsPlain = (c : ℕ) → override c ≡ none

  on_component_dirty-dirt :
      (c : ℕ) (s : Dirt) → (on_component_dirty graph c s).dirt ≡ (or_dirt root components s).dirt
  unfolding on_component_dirty
  on_component_dirty-dirt c s = elim (Bool-cases (ltb (graph.graph_order c) s.depth)) [
    | inl lower ↦ rw lower refl
    | inr not_lower ↦ rw not_lower refl
  ]

  on_component_dirty-Adds : (c : ℕ) (s : Dirt) → Adds s (on_component_dirty graph c s)
  on_component_dirty-Adds c s x w h =
      rw (on_component_dirty-dirt c s) (or_dirt-Adds root components s x w h)

  on_dirty_plain :
      IsPlain
      → (c : ℕ) (s : Dirt)
      → on_dirty graph c s ≡ (if c == root then or_dirt root components s else s)
  unfolding on_dirty
  on_dirty_plain plain c s = rw (plain c, on_dirty) refl

  on_dirty-Adds : IsPlain → (c : ℕ) (s : Dirt) → Adds s (on_dirty graph c s)
  on_dirty-Adds plain c s x w h = elim (Bool-cases (c == root)) [
    | inl here ↦ rw (on_dirty_plain plain c s, here) (or_dirt-Adds root components s x w h)
    | inr other ↦ rw (on_dirty_plain plain c s, other) h
  ]

  on_dirty-OnlyAt : IsPlain → (c : ℕ) (s : Dirt) → OnlyAt root s (on_dirty graph c s)
  on_dirty-OnlyAt plain c s x away = elim (Bool-cases (c == root)) [
    | inl here ↦ rw (on_dirty_plain plain c s, here) (or_dirt-OnlyAt root components s x away)
    | inr other ↦ rw (on_dirty_plain plain c s, other) refl
  ]

  pub mark-Adds : IsPlain → (c value : ℕ) (s : Dirt) → Adds s (mark graph c value s)
  unfolding mark
  mark-Adds plain c value s x w h =
      on_component_dirty-Adds c (on_dirty graph c (or_dirt c value s)) x w
        (on_dirty-Adds plain c (or_dirt c value s) x w (or_dirt-Adds c value s x w h))

  pub mark-Has : IsPlain → (c value : ℕ) (s : Dirt) → Has (mark graph c value s) c value
  unfolding mark
  mark-Has plain c value s =
      on_component_dirty-Adds c (on_dirty graph c (or_dirt c value s)) c value
        (on_dirty-Adds plain c (or_dirt c value s) c value (or_dirt-Has c value s))

  -- The artboard is told.
  pub mark-root : (c value : ℕ) (s : Dirt) → Has (mark graph c value s) root components
  unfolding mark
  mark-root c value s =
      rw (on_component_dirty-dirt c (on_dirty graph c (or_dirt c value s)))
        (or_dirt-Has root components (on_dirty graph c (or_dirt c value s)))

  pub mark-others :
      IsPlain
      → (c value : ℕ) (s : Dirt) (x : ℕ) → x ≢ root
      → x ≢ c
      → (mark graph c value s).dirt x ≡ s.dirt x
  unfolding mark
  mark-others plain c value s x away other =
      let t = on_dirty graph c (or_dirt c value s) in
      ap (λ f. f x) (on_component_dirty-dirt c t)
      ∙ or_dirt-OnlyAt root components t x away
      ∙ on_dirty-OnlyAt plain c (or_dirt c value s) x away
      ∙ or_dirt-OnlyAt c value s x other

  module _ (value : ℕ) where
    -- Whoever has the value has had it before, or passed it on to all dependents.
    abbrev pub PassedOn : Dirt → Dirt → Type 0
    PassedOn s t =
        (x : ℕ) → x ≢ root → Has t x value → Has s x value ⊎ All (λ d. Has t d value) (dependents x)

    pub All-Adds :
        (s t : Dirt) (ds : List ℕ)
        → Adds s t
        → All (λ d. Has s d value) ds
        → All (λ d. Has t d value) ds
    All-Adds s t [] adds all = all
    All-Adds s t (d ∷ ds) adds (h, all) = (adds d value h, All-Adds s t ds adds all)

    pub PassedOn-trans : (s t u : Dirt) → Adds t u → PassedOn s t → PassedOn t u → PassedOn s u
    PassedOn-trans s t u adds p q x away h = elim (q x away h) [
      | inl before ↦ elim (p x away before) [
        | inl old ↦ inl old
        | inr passed ↦ inr (All-Adds t u (dependents x) adds passed)
      ]
      | inr passed ↦ inr passed
    ]

    -- How many of the components below `n` lack the value.
    abbrev pub lacking : ℕ → Dirt → ℕ
    lacking zero s = 0
    lacking (suc n) s = (if has_dirt (s.dirt n) value then 0 else 1) + lacking n s

    pub lacking-le : (n : ℕ) (s t : Dirt) → Adds s t → lacking n t ≤ lacking n s
    lacking-le zero s t adds = omega arith
    lacking-le (suc n) s t adds = ground (arith, adds n value, lacking-le n s t adds)

    pub lacking-lt :
        (n : ℕ) (s t : Dirt) (c : ℕ)
        → Adds s t
        → c < n
        → has_dirt (s.dirt c) value ≡ false
        → Has t c value
        → lacking n t < lacking n s
    lacking-lt zero s t c adds h lacks has = elim h [ ]
    lacking-lt (suc n) s t c adds h lacks has = elim (Bool-cases (c == n)) [
      | inl here ↦
          let e : n ≡ c = sym ((==_iff c n).0 here) in
          rw e (ground (arith, lacks, has, lacking-le c s t adds))
      | inr other ↦
          ground (arith, adds n value, lacking-lt n s t c adds (ground (arith, other)) lacks has)
    ]
