-- ===== src/Components/Dirt/Pass.antt =====
-- What one pass of Artboard::updateComponents (src/artboard.cpp) over the order leaves behind.
use rive_cpp_legacy.Prelude.{
  ℕ, ◌+◌, ◌≡◌, ◌≢◌, refl, sym, subst, ◌∙◌, ◌⊎◌, inl, inr, true, false, List, [], ◌∷◌, arith,
  Bool-cases, ==_iff, ◌==◌, ◌||◌, ltb, All,
}
use rive_cpp_legacy.Components.Dirt.{
  Dirt, Graph, components, collapsed, set_dirt, has_dirt, update_pass,
}

-- Nothing is left to do for the component.
abbrev pub IsSettled : ℕ → Dirt → Type 0
IsSettled c s = (s.dirt c == 0 || has_dirt (s.dirt c) collapsed) ≡ true

-- No component stands twice.
abbrev pub StandOnce : List ℕ → Type 0
StandOnce [] = Unit
StandOnce (c ∷ cs) = All (λ d. d ≢ c) cs × StandOnce cs

module _ (graph : Graph) (update : ℕ → ℕ → Dirt → Dirt) where
  open graph use {root}

  abbrev pub IsDirty : Dirt → Type 0
  IsDirty s = has_dirt (s.dirt root) components ≡ true

  -- An `update` that adds dirt anywhere has told the artboard, and none takes that back.
  abbrev pub Tells : Type 0
  Tells =
      (c d : ℕ) (s : Dirt)
      → (IsDirty s → IsDirty (update c d s)) × (IsDirty (update c d s) ⊎ (update c d s ≡ s))

  abbrev updated : ℕ → ℕ → Dirt → Dirt
  updated i c s = update c (s.dirt c) (set_dirt c 0 (record s { depth = i }))

  abbrev pub pass : ℕ → List ℕ → Dirt → Dirt
  pass i cs s = update_pass graph update i cs s

  skips :
      (i c : ℕ) (cs : List ℕ) (s : Dirt)
      → IsSettled c s
      → pass i (c ∷ cs) s ≡ pass (i + 1) cs (record s { depth = i })
  unfolding update_pass
  skips i c cs s h = rw h refl

  breaks :
      (i c : ℕ) (cs : List ℕ) (s : Dirt)
      → (s.dirt c == 0 || has_dirt (s.dirt c) collapsed) ≡ false
      → ltb (updated i c s).depth i ≡ true
      → pass i (c ∷ cs) s ≡ updated i c s
  unfolding update_pass
  breaks i c cs s h lower = rw (h, lower) refl

  goes_on :
      (i c : ℕ) (cs : List ℕ) (s : Dirt)
      → (s.dirt c == 0 || has_dirt (s.dirt c) collapsed) ≡ false
      → ltb (updated i c s).depth i ≡ false
      → pass i (c ∷ cs) s ≡ pass (i + 1) cs (updated i c s)
  unfolding update_pass
  goes_on i c cs s h lower = rw (h, lower) refl

  set_dirt-others : (c x : ℕ) (s : Dirt) → x ≢ c → (set_dirt c 0 s).dirt x ≡ s.dirt x
  set_dirt-others c x s away = elim (Bool-cases (x == c)) [
    | inl here ↦ absurd (away ((==_iff x c).0 here))
    | inr other ↦ rw other refl
  ]

  set_dirt_self : (c : ℕ) (s : Dirt) → (set_dirt c 0 s).dirt c ≡ 0
  set_dirt_self c s = rw ((==_iff c c).1 refl) refl

  -- Once told, the artboard stays so until the end of the loop.
  pass-IsDirty :
      Tells
      → (i : ℕ) (cs : List ℕ) (s : Dirt) → All (λ c. c ≢ root) cs
      → IsDirty s
      → IsDirty (pass i cs s)
  unfolding update_pass
  pass-IsDirty tells i [] s away dirty = dirty
  pass-IsDirty tells i (c ∷ cs) s (other, away) dirty =
      elim (Bool-cases (s.dirt c == 0 || has_dirt (s.dirt c) collapsed)) [
        | inl skip ↦
            rw (skips i c cs s skip)
              (pass-IsDirty tells (i + 1) cs (record s { depth = i }) away dirty)
        | inr todo ↦
            let t : Dirt = record s { depth = i } in
            let told : IsDirty (updated i c s) = (tells c (s.dirt c) (set_dirt c 0 t)).0 (
              subst (λ d. has_dirt d components ≡ true)
                (sym (set_dirt-others c root t (λ e. other (sym e)))) dirty) in
            elim (Bool-cases (ltb (updated i c s).depth i)) [
              | inl lower ↦ rw (breaks i c cs s todo lower) told
              | inr not_lower ↦
                  rw (goes_on i c cs s todo not_lower)
                    (pass-IsDirty tells (i + 1) cs (updated i c s) away told)
            ]
      ]

  -- All components of the list are settled and no other has changed.
  abbrev pub Settles : List ℕ → Dirt → Dirt → Type 0
  Settles cs s t =
      All (λ c. IsSettled c t) cs × ((x : ℕ) → All (λ c. c ≢ x) cs → t.dirt x ≡ s.dirt x)

  settled_one :
      (c : ℕ) (cs : List ℕ) (s u t : Dirt)
      → All (λ d. d ≢ c) cs
      → IsSettled c u
      → ((x : ℕ) → c ≢ x → u.dirt x ≡ s.dirt x)
      → Settles cs u t
      → Settles (c ∷ cs) s t
  settled_one c cs s u t once here same (all, others) = (
    (subst (λ d. (d == 0 || has_dirt d collapsed) ≡ true) (sym (others c once)) here, all),
    (λ x (away, rest). others x rest ∙ same x away),
  )

  abbrev pub Outcome : List ℕ → Dirt → Dirt → Type 0
  Outcome cs s t = IsDirty t ⊎ Settles cs s t

  more :
      (c : ℕ) (cs : List ℕ) (s u t : Dirt)
      → All (λ d. d ≢ c) cs
      → IsSettled c u
      → ((x : ℕ) → c ≢ x → u.dirt x ≡ s.dirt x)
      → Outcome cs u t
      → Outcome (c ∷ cs) s t
  more c cs s u t first here same (inl dirty) = inl dirty
  more c cs s u t first here same (inr settles) =
      inr (settled_one c cs s u t first here same settles)

  -- The artboard does not stand behind the first component.
  abbrev pub AwayBehind : List ℕ → Type 0
  AwayBehind [] = Unit
  AwayBehind (c ∷ cs) = All (λ d. d ≢ root) cs

  behind : (cs : List ℕ) → All (λ d. d ≢ root) cs → AwayBehind cs
  behind [] away = tt
  behind (c ∷ cs) (other, away) = away

  updated_step :
      Tells
      → (i c : ℕ) (cs : List ℕ) (s : Dirt) → All (λ d. d ≢ root) cs
      → All (λ d. d ≢ c) cs
      → (s.dirt c == 0 || has_dirt (s.dirt c) collapsed) ≡ false
      → Outcome cs (updated i c s) (pass (i + 1) cs (updated i c s))
      → IsDirty (updated i c s) ⊎ (updated i c s ≡ set_dirt c 0 (record s { depth = i }))
      → Outcome (c ∷ cs) s (pass i (c ∷ cs) s)
  updated_step tells i c cs s away first todo rest (inl told) =
      elim (Bool-cases (ltb (updated i c s).depth i)) [
        | inl lower ↦ inl (subst IsDirty (sym (breaks i c cs s todo lower)) told)
        | inr not_lower ↦ inl (
            subst IsDirty (sym (goes_on i c cs s todo not_lower))
              (pass-IsDirty tells (i + 1) cs (updated i c s) away told))
      ]
  updated_step tells i c cs s away first todo rest (inr same) =
      let t : Dirt = record s { depth = i } in
      let not_lower : ltb (updated i c s).depth i ≡ false =
        subst (λ u. ltb u.depth i ≡ false) (sym same) (ground arith) in
      subst (Outcome (c ∷ cs) s) (sym (goes_on i c cs s todo not_lower)) (
        more c cs s (updated i c s) (pass (i + 1) cs (updated i c s)) first
          (subst (IsSettled c) (sym same)
            (subst (λ d. (d == 0 || has_dirt d collapsed) ≡ true) (sym (set_dirt_self c t)) refl))
          (λ x h.
            subst (λ u. u.dirt x ≡ s.dirt x) (sym same) (set_dirt-others c x t (λ e. h (sym e))))
          rest)

  pub pass-Settles :
      Tells
      → (i : ℕ) (cs : List ℕ) (s : Dirt) → AwayBehind cs
      → StandOnce cs
      → Outcome cs s (pass i cs s)
  unfolding update_pass
  pass-Settles tells i [] s away once = inr (tt, (λ x h. refl))
  pass-Settles tells i (c ∷ cs) s away (first, once) =
      elim (Bool-cases (s.dirt c == 0 || has_dirt (s.dirt c) collapsed)) [
        | inl skip ↦
            let t : Dirt = record s { depth = i } in
            subst (Outcome (c ∷ cs) s) (sym (skips i c cs s skip)) (
              more c cs s t (pass (i + 1) cs t) first skip (λ x h. refl)
                (pass-Settles tells (i + 1) cs t (behind cs away) once))
        | inr todo ↦
            updated_step tells i c cs s away first todo
              (pass-Settles tells (i + 1) cs (updated i c s) (behind cs away) once)
              ((tells c (s.dirt c) (set_dirt c 0 (record s { depth = i }))).1)
      ]
