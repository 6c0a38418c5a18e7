-- ===== src/Components/Dirt/Settle.antt =====
-- What Artboard::updateComponents (src/artboard.cpp) leaves behind.
use rive_cpp_legacy.Prelude.{
  ℕ, zero, suc, ◌≤◌, ◌<◌, ◌≡◌, refl, sym, ap, subst, ◌⊎◌, inl, inr, Bool, true, false, List, ◌∷◌,
  arith, Bool-cases, bit_and, if◌then◌else◌, All,
}
use rive_cpp_legacy.Components.Dirt.{
  Dirt, Graph, components, set_dirt, has_dirt, update_loop, update_components, all_but_components,
}
use rive_cpp_legacy.Components.Dirt.Pass.{IsSettled, StandOnce, IsDirty, Tells, pass, pass-Settles}

module _ (graph : Graph) (update : ℕ → ℕ → Dirt → Dirt) where
  open graph use {root}

  -- What one round of the `while` loop does, and a number of rounds.
  abbrev pub one_round : List ℕ → Dirt → Dirt
  one_round order s =
      pass graph update 0 order (set_dirt root (bit_and (s.dirt root) all_but_components) s)

  abbrev pub rounds : List ℕ → ℕ → Dirt → Dirt
  rounds order zero s = s
  rounds order (suc k) s = rounds order k (one_round order s)

  -- From `s` to `t`: the rounds go on as long as the artboard is dirty, `left` of them at most. At
  -- their end the artboard is not dirty and every component of the order is settled, unless all
  -- `left` rounds were made and the artboard is dirty still.
  abbrev pub IsDone : ℕ → List ℕ → Dirt → Dirt → Type 0
  IsDone left order s t =
      (k : ℕ) × (k ≤ left)
      × (t ≡ rounds order k s)
      × ((i : ℕ) → i < k → IsDirty graph update (rounds order i s))
      × (((has_dirt (t.dirt root) components ≡ false) × All (λ c. IsSettled c t) order)
          ⊎ ((k ≡ left) × IsDirty graph update t))

  -- At the start of a round there is something to do, or nothing is left.
  abbrev Start : List ℕ → Dirt → Type 0
  Start order s = IsDirty graph update s ⊎ All (λ c. IsSettled c s) order

  stops :
      (left : ℕ) (order : List ℕ) (s : Dirt)
      → has_dirt (s.dirt root) components ≡ false
      → Start order s
      → IsDone left order s s
  stops left order s clean (inl dirty) = absurd (cc (clean, dirty))
  stops left order s clean (inr all) =
      (0, omega arith, refl, (λ i less. elim less [ ]), inl (clean, all))

  one_more :
      (left : ℕ) (order : List ℕ) (s t : Dirt)
      → IsDirty graph update s
      → IsDone left order (one_round order s) t
      → IsDone (suc left) order s t
  one_more left order s t dirty (k, few, e, while', done) =
      (suc k, omega (arith, few), e, each, ended done)
    where
      each : (i : ℕ) → i < suc k → IsDirty graph update (rounds order i s)
      each zero less = dirty
      each (suc i) less = while' i (omega (arith, less))

      ended :
          (((has_dirt (t.dirt root) components ≡ false) × All (λ c. IsSettled c t) order)
            ⊎ ((k ≡ left) × IsDirty graph update t))
          → (((has_dirt (t.dirt root) components ≡ false) × All (λ c. IsSettled c t) order)
              ⊎ ((suc k ≡ suc left) × IsDirty graph update t))
      ended (inl clean) = inl clean
      ended (inr (all_made, still)) = inr (ap suc all_made, still)

  loop_on :
      (left : ℕ) (order : List ℕ) (s : Dirt)
      → IsDirty graph update s
      → update_loop graph update (suc left) order s
        ≡ update_loop graph update left order (one_round order s)
  unfolding update_loop
  loop_on left order s dirty = rw dirty refl

  loop_ends :
      (left : ℕ) (order : List ℕ) (s : Dirt)
      → has_dirt (s.dirt root) components ≡ false
      → update_loop graph update (suc left) order s ≡ s
  unfolding update_loop
  loop_ends left order s clean = rw clean refl

  loop_now : (order : List ℕ) (s : Dirt) → update_loop graph update 0 order s ≡ s
  unfolding update_loop
  loop_now order s = refl

  loop-IsDone :
      Tells graph update
      → (left : ℕ) (rest : List ℕ) (s : Dirt) → StandOnce (root ∷ rest)
      → Start (root ∷ rest) s
      → IsDone left (root ∷ rest) s (update_loop graph update left (root ∷ rest) s)
  loop-IsDone tells zero rest s once start =
      subst (IsDone 0 (root ∷ rest) s) (sym (loop_now (root ∷ rest) s))
        (elim (Bool-cases (has_dirt (s.dirt root) components)) [
          | inl dirty ↦ (0, omega arith, refl, (λ i less. elim less [ ]), inr (refl, dirty))
          | inr clean ↦ stops 0 (root ∷ rest) s clean start
        ])
  loop-IsDone tells (suc left) rest s once start =
      let order = root ∷ rest in
      elim (Bool-cases (has_dirt (s.dirt root) components)) [
        | inl dirty ↦
            let next : Start order (one_round order s) =
              elim (pass-Settles graph update tells 0 order
                (set_dirt root (bit_and (s.dirt root) all_but_components) s) once.0 once) [
                  | inl told ↦ inl told
                  | inr (all, others) ↦ inr all
                ] in
            subst (IsDone (suc left) order s) (sym (loop_on left order s dirty)) (
              one_more left order s (update_loop graph update left order (one_round order s)) dirty
                (loop-IsDone tells left rest (one_round order s) once next))
        | inr clean ↦
            subst (IsDone (suc left) order s) (sym (loop_ends left order s clean))
              (stops (suc left) order s clean start)
      ]

  pick : {A : Type 0} (b : Bool) (x y : A) → b ≡ true → (if b then x else y) ≡ x
  pick b x y e = rw e refl

  runs :
      (order : List ℕ) (s : Dirt)
      → IsDirty graph update s
      → update_components graph update order s ≡ (true, update_loop graph update 100 order s)
  unfolding update_components
  runs order s dirty =
      pick (has_dirt (s.dirt root) components) (true, update_loop graph update 100 order s)
        (false, s) dirty

  -- Over an order that begins with the artboard and has no component twice, where an `update` that
  -- changes anything tells the artboard and none takes that back, an updateComponents that has
  -- something to do returns true and makes rounds over the order, each of them from a dirty
  -- artboard and 100 at most. Behind them the artboard is not dirty and every component of the
  -- order is without dirt or collapsed, unless all 100 were made and the artboard is dirty still.
  pub update_components-IsDone :
      Tells graph update
      → (rest : List ℕ) (s : Dirt) → StandOnce (root ∷ rest)
      → IsDirty graph update s
      → ((update_components graph update (root ∷ rest) s).0 ≡ true)
        × IsDone 100 (root ∷ rest) s (update_components graph update (root ∷ rest) s).1
  update_components-IsDone tells rest s once dirty =
      subst (λ r. (r.0 ≡ true) × IsDone 100 (root ∷ rest) s r.1) (sym (runs (root ∷ rest) s dirty))
        (refl, loop-IsDone tells 100 rest s once (inl dirty))
