-- ===== src/Animation/Listeners/Sorted.antt =====
-- The order that sortHitComponents (src/animation/state_machine_instance.cpp) leaves.
use rive_cpp_legacy.Prelude.{
  count, ℕ, zero, suc, ◌+◌, ◌≡◌, inl, inr, refl, sym, ap, subst, ◌∙◌, Bool, true, false, List, [],
  ◌∷◌, ◌++◌, Option, none, some, if◌then◌else◌, ◌==◌, map, contains, Bool-cases, Option-cases,
  ==_iff, arith, All,
}
use rive_cpp_legacy.Animation.Listeners.{HitComponent}
use rive_cpp_legacy.Animation.Listeners.Sort.{component, put_back, swap_found, bring_forward}
use rive_cpp_legacy.Components.DrawOrder.Segments.{StandOnce, Misses}

abbrev pub components : List HitComponent → List ℕ
components cs = map component cs

-- Those of a list that are among others.
abbrev pub keep : List ℕ → List ℕ → List ℕ
keep among [] = []
keep among (x ∷ xs) = if contains among x then x ∷ keep among xs else keep among xs

-- The same numbers, as often.
abbrev pub IsSame : List ℕ → List ℕ → Type 0
IsSame xs ys = (g : ℕ) → count g xs ≡ count g ys

-- `d` in front of the rest makes up the whole.
abbrev Splits : ℕ → List HitComponent → Option (HitComponent × List HitComponent) → Type 0
Splits d cs none = contains (components cs) d ≡ false
Splits d cs (some (c, rest)) = (component c ≡ d) × IsSame (components cs) (d ∷ components rest)

abbrev one : ℕ → ℕ → ℕ
one g x = if g == x then 1 else 0

count-add : (g x : ℕ) (xs : List ℕ) → count g (x ∷ xs) ≡ one g x + count g xs
count-add g x xs = ground arith

-- Two elements change their places.
count-swap : (g x y : ℕ) (xs : List ℕ) → count g (x ∷ y ∷ xs) ≡ count g (y ∷ x ∷ xs)
count-swap g x y xs =
    omega
      (arith, count-add g x (y ∷ xs), count-add g y xs, count-add g y (x ∷ xs), count-add g x xs)

put_back-Splits :
    (d : ℕ) (x c : HitComponent) (cs : List HitComponent)
    (o : Option (HitComponent × List HitComponent))
    → (component x == d) ≡ false
    → (component c == d) ≡ false
    → Splits d (x ∷ cs) o
    → Splits d (x ∷ c ∷ cs) (put_back c o)
put_back-Splits d x c cs none ex ec h = ground (arith, h, ex, ec)
put_back-Splits d x c cs (some (y, rest)) ex ec (e, same) = (
  e,
  λ g.
      count-swap g (component x) (component c) (components cs)
      ∙ count-add g (component c) (components (x ∷ cs))
      ∙ ap (λ n. one g (component c) + n) (same g)
      ∙ sym (count-add g (component c) (d ∷ components rest))
      ∙ count-swap g (component c) d (components rest),
)

swap_found-Splits :
    (d : ℕ) (x : HitComponent) (cs : List HitComponent)
    → (component x == d) ≡ false
    → Splits d (x ∷ cs) (swap_found d x cs)
unfolding swap_found
swap_found-Splits d x [] e = ground (arith, e)
swap_found-Splits d x (c ∷ cs) e = elim (Bool-cases (component c == d)) [
  | inl here ↦ rw here (
    (==_iff (component c) d).0 here,
    λ g.
        count-swap g (component x) (component c) (components cs)
        ∙ ap (λ k. count g (k ∷ components (x ∷ cs))) ((==_iff (component c) d).0 here),
  )
  | inr other ↦
      rw other (put_back-Splits d x c cs (swap_found d x cs) e other (swap_found-Splits d x cs e))
]

bring_forward-Splits : (d : ℕ) (cs : List HitComponent) → Splits d cs (bring_forward d cs)
unfolding bring_forward
bring_forward-Splits d [] = refl
bring_forward-Splits d (x ∷ xs) = elim (Bool-cases (component x == d)) [
  | inl here ↦
      let e = (==_iff (component x) d).0 here in
      rw here (e, λ g. ap (λ k. count g (k ∷ components xs)) e)
  | inr other ↦ rw other (swap_found-Splits d x xs other)
]

-- The loop over the drawables of a list.
abbrev pub sort_list : List ℕ → List HitComponent → List HitComponent
sort_list [] cs = cs
sort_list (d ∷ ds) cs = elim (bring_forward d cs) [
  | none ↦ sort_list ds cs
  | some (c, rest) ↦ c ∷ sort_list ds rest
]

abbrev not_zero : ℕ → Bool
not_zero zero = false
not_zero (suc n) = true

contains-count : (xs : List ℕ) (g : ℕ) → contains xs g ≡ not_zero (count g xs)
contains-count [] g = refl
contains-count (x ∷ xs) g = elim (Bool-cases (g == x)) [
  | inl here ↦ rw here refl
  | inr other ↦ rw other (contains-count xs g)
]

keep-same :
    (xs among others : List ℕ)
    → All (λ x. contains among x ≡ contains others x) xs
    → keep among xs ≡ keep others xs
keep-same [] among others h = refl
keep-same (x ∷ xs) among others (e, h) =
    ap (λ b. if b then x ∷ keep among xs else keep among xs) e
    ∙ ap (λ l. if contains others x then x ∷ l else l) (keep-same xs among others h)

same-contains :
    (xs ys : List ℕ) (d : ℕ) (zs : List ℕ)
    → IsSame xs (d ∷ ys)
    → Misses d zs
    → All (λ x. contains xs x ≡ contains ys x) zs
same-contains xs ys d [] same away = tt
same-contains xs ys d (z ∷ zs) same (ne, away) = (
  contains-count xs z
      ∙ ap not_zero (same z ∙ other (ground (arith, ne)))
      ∙ sym (contains-count ys z),
  same-contains xs ys d zs same away,
)
  where
    other : (z == d) ≡ false → count z (d ∷ ys) ≡ count z ys
    other e = rw e refl

among_whole : (xs ys : List ℕ) (d : ℕ) → IsSame xs (d ∷ ys) → contains xs d ≡ true
among_whole xs ys d same = contains-count xs d ∙ ap not_zero (same d ∙ here) ∙ refl
  where
    here : count d (d ∷ ys) ≡ suc (count d ys)
    here = rw ((==_iff d d).1 refl) refl

pub sort_list-keep :
    (ds : List ℕ) (cs : List HitComponent)
    → StandOnce ds
    → (rest : List ℕ) × (components (sort_list ds cs) ≡ keep (components cs) ds ++ rest)
      × IsSame (components (sort_list ds cs)) (components cs)
sort_list-keep [] cs once = (components cs, refl, λ g. refl)
sort_list-keep (d ∷ ds) cs (new, once) = elim (Option-cases (bring_forward d cs)) [
  | inl nothing ↦
      let absent = subst (Splits d cs) nothing (bring_forward-Splits d cs) in
      let (rest, e, same) = sort_list-keep ds cs once in
      let step : sort_list (d ∷ ds) cs ≡ sort_list ds cs = rw (nothing, sort_list) refl in
      (rest, ap components step ∙ rw absent e, λ g. ap (λ l. count g (components l)) step ∙ same g)
  | inr ((c, others), found) ↦
      let (here, splits) = subst (Splits d cs) found (bring_forward-Splits d cs) in
      let (rest, e, same) = sort_list-keep ds others once in
      let step : sort_list (d ∷ ds) cs ≡ c ∷ sort_list ds others = rw (found, sort_list) refl in
      let kept =
        keep-same ds (components cs) (components others)
          (same-contains (components cs) (components others) d ds splits new) in
      let among = among_whole (components cs) (components others) d splits in
      (
        rest,
        ap components step
            ∙ ap (λ k. k ∷ components (sort_list ds others)) here
            ∙ ap (λ l. d ∷ l) (e ∙ ap (λ l. l ++ rest) (sym kept))
            ∙ ap (λ b. (if b then d ∷ keep (components cs) ds else keep (components cs) ds) ++ rest)
                (sym among),
        λ g.
            ap (λ l. count g (components l)) step
            ∙ ap (λ k. count g (k ∷ components (sort_list ds others))) here
            ∙ count-add g d (components (sort_list ds others))
            ∙ ap (λ n. one g d + n) (same g)
            ∙ sym (count-add g d (components others))
            ∙ sym (splits g),
      )
]
