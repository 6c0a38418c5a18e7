-- ===== src/Animation/Keyframes/Report.antt =====
-- Which keyframes a step of time reports.
use rive_cpp_legacy.Prelude.{
  ℕ, zero, suc, ◌+◌, ◌-◌, ◌≤◌, ◌<◌, ◌≡◌, refl, sym, ap, subst, ◌∙◌, ◌⊎◌, inl, inr, Bool, true,
  false, not, ◌&&◌, List, [], ◌∷◌, ◌++◌, some, ltb, leb, length-append, get_elem?-append_length,
  if◌then◌else◌, length, get_elem?, arith, Bool-cases, dec_lt,
}
use mathlib.Core.List.{append_assoc}
use rive_cpp_legacy.Animation.Keyframes.{Floats, report_loop, report_keyed_callbacks}
use rive_cpp_legacy.Animation.Keyframes.Search.{
  get_elem?-some, IsIncreasing, Splits, before, closest_frame_index-Splits,
}

module _ (floats : Floats) where
  open floats use {Float, lt, sub, lt_irrefl, lt_trans}

  -- A step forward passes the keyframes from its start, which counts only on the start frame of the
  -- animation, to its end, which counts. A step backward passes those from its end, which counts,
  -- to its start, which counts only on the start frame. A step of no length passes none.
  abbrev pub passes : Float → Float → Bool → Float → Bool
  passes from to at_start t =
      if lt from to
      then (if at_start then not (lt t from) else lt from t) && not (lt to t)
      else if lt to from
      then not (lt t to) && (if at_start then not (lt from t) else lt t from)
      else false

  module _ (frames : List Float) where
    -- What stands before one index stands before the other, so the indices are in order.
    Splits-le :
        (a b : Float) (m n i j : ℕ)
        → i ≤ length frames
        → Splits floats frames a m i
        → Splits floats frames b n j
        → ((t : Float) → before floats frames a m t ≡ true → before floats frames b n t ≡ true)
        → i ≤ j
    Splits-le a b m n i j bound p q imp = elim (dec_lt j i) [
      | no h ↦ omega arith
      | yes h ↦
          let (t, e) = get_elem?-some frames j (omega arith) in
          absurd (ground (arith, p j t e, q j t e, imp t))
    ]

    -- The keyframes from the index `k` on that a test picks, with the time that is reported.
    abbrev pub picked : (Float → Bool) → Float → ℕ → List Float → List (ℕ × Float)
    picked test to k [] = []
    picked test to k (t ∷ ts) =
        let rest = picked test to (suc k) ts in if test t then (k, sub to t) ∷ rest else rest

    -- The test holds for the keyframes between two indices.
    abbrev Between : (Float → Bool) → ℕ → ℕ → ℕ → List Float → Type 0
    Between test i j k ts =
        (n : ℕ) (t : Float) → get_elem? ts n ≡ some t → test t ≡ (leb i (k + n) && ltb (k + n) j)

    Between-rest :
        (test : Float → Bool) (i j k : ℕ) (t : Float) (ts : List Float)
        → Between test i j k (t ∷ ts)
        → Between test i j (suc k) ts
    Between-rest test i j k t ts h n u e =
        let same : k + suc n ≡ suc k + n = omega arith in
        subst (λ m. test u ≡ (leb i m && ltb m j)) same (h (suc n) u e)

    Between-here :
        (test : Float → Bool) (i j k : ℕ) (t : Float) (ts : List Float)
        → Between test i j k (t ∷ ts)
        → test t ≡ (leb i k && ltb k j)
    Between-here test i j k t ts h =
        let same : k + 0 ≡ k = omega arith in
        subst (λ m. test t ≡ (leb i m && ltb m j)) same (h 0 t refl)

    picked-none :
        (test : Float → Bool) (to : Float) (i j : ℕ) (ts : List Float) (k : ℕ)
        → Between test i j k ts
        → (j ≤ k) ⊎ (j ≤ i)
        → picked test to k ts ≡ []
    picked-none test to i j [] k h past = refl
    picked-none test to i j (t ∷ ts) k h past =
        let no : test t ≡ false = ground (arith, Between-here test i j k t ts h, past) in
        rw no (
          picked-none test to i j ts (suc k) (Between-rest test i j k t ts h)
            (ground (arith, past)))

    -- The loop from one index to the other reports what the test picks.
    report_loop-picked :
        (test : Float → Bool) (to : Float) (all ts front : List Float) (i j n : ℕ)
        → all ≡ front ++ ts
        → Between test i j (length front) ts
        → length front ≤ i
        → i + n ≡ j
        → j ≤ length front + length ts
        → report_loop floats all to n i ≡ some (picked test to (length front) ts)
    unfolding report_loop
    report_loop-picked test to all ts front i j zero e h past ends within =
        ap some (sym (picked-none test to i j ts (length front) h (inr (omega (arith, ends)))))
    report_loop-picked test to all [] front i j (suc n) e h past ends within =
        absurd (omega (arith, past, ends, within))
    report_loop-picked test to all (t ∷ ts) front i j (suc n) e h past ends within =
        let size = length-append front (t ∷ []) in
        let size' : suc (length front) ≡ length (front ++ t ∷ []) = omega (arith, size) in
        let e' : all ≡ (front ++ t ∷ []) ++ ts = e ∙ sym (append_assoc front (t ∷ []) ts) in
        let rest =
          subst (λ k. Between test i j k ts) size' (Between-rest test i j (length front) t ts h) in
        elim (dec_lt (length front) i) [
          | yes before ↦
              let no : test t ≡ false =
                ground (arith, Between-here test i j (length front) t ts h, before) in
              rw no (
                report_loop-picked test to all ts (front ++ t ∷ []) i j (suc n) e' rest
                  (omega (arith, size, before)) ends (omega (arith, size, within))
                ∙ ap (λ k. some (picked test to k ts)) (sym size'))
          | no here ↦
              let same : length front ≡ i = omega (arith, here, past) in
              let yes' : test t ≡ true =
                ground (arith, Between-here test i j (length front) t ts h, same, ends) in
              let there : get_elem? all i ≡ some t =
                ap (λ xs. get_elem? xs i) e
                ∙ ap (λ k. get_elem? (front ++ t ∷ ts) k) (sym same)
                ∙ get_elem?-append_length front ts t in
              let rest' : Between test (suc i) j (length (front ++ t ∷ [])) ts =
                λ m u q. ground (arith, rest m u q, size, same) in
              let loop =
                report_loop-picked test to all ts (front ++ t ∷ []) (suc i) j n e' rest'
                  (omega (arith, size, same)) (omega (arith, ends)) (omega (arith, size, within))
                ∙ ap (λ k. some (picked test to k ts)) (sym size') in
              rw (there, report_loop, loop, yes')
                (ap (λ k. some ((k, sub to t) ∷ picked test to (suc (length front)) ts)) (sym same))
        ]

    asym : (a b : Float) → lt a b ≡ true → lt b a ≡ false
    asym a b h = ground (arith, lt_trans a b a h, lt_irrefl a)

    -- A step forward, with the offset 0 or 1 of its start.
    forward_before :
        (from to t : Float) (m : ℕ)
        → lt from to ≡ true
        → before floats frames from m t ≡ true
        → before floats frames to 1 t ≡ true
    forward_before from to t m h k =
        ground (arith, lt_trans from to t h, asym from t, lt_trans t from to, asym t to)

    backward_before :
        (from to t : Float) (m : ℕ)
        → lt to from ≡ true
        → before floats frames to 0 t ≡ true
        → before floats frames from m t ≡ true
    backward_before from to t m h k = ground (arith, lt_trans t to from k h, asym t from)

  -- Over increasing keyframes, of which there is one at least, `reportKeyedCallbacks` makes exactly
  -- one report for each keyframe that the step passes, in the keyframes' order, with the time from
  -- the keyframe to the step's end, and none for any other; it reads no keyframe out of range.
  pub report_keyed_callbacks-passes :
      (frames : List Float) (from to : Float) (at_start : Bool)
      → 0 < length frames
      → IsIncreasing floats frames
      → report_keyed_callbacks floats frames from to at_start
        ≡ some (picked frames (passes from to at_start) to 0 frames)
  unfolding report_keyed_callbacks
  report_keyed_callbacks-passes frames from to at_start some' up = elim (Bool-cases (lt from to)) [
    | inl forward ↦
        let m : ℕ = if at_start then 0 else 1 in
        let (idx, r, bound, p) =
          closest_frame_index-Splits floats frames from m (ground arith) some' up in
        let (idx_to, r', bound', q) =
          closest_frame_index-Splits floats frames to 1 (omega arith) some' up in
        let order =
          Splits-le frames from to m 1 idx idx_to bound p q
            (λ t. forward_before frames from to t m forward) in
        let loop =
          report_loop-picked frames (passes from to at_start) to frames frames [] idx idx_to
            (idx_to - idx) refl (λ i t e. ground (arith, forward, order, p i t e, q i t e))
            (omega arith) (omega (arith, order)) (omega (arith, bound')) in
        ground (arith, forward, asym frames from to forward, r, r', order, loop)
    | inr not_forward ↦ elim (Bool-cases (lt to from)) [
      | inl backward ↦
          let m : ℕ = if at_start then 1 else 0 in
          let (idx, r, bound, p) =
            closest_frame_index-Splits floats frames from m (ground arith) some' up in
          let (idx_to, r', bound', q) =
            closest_frame_index-Splits floats frames to 0 (omega arith) some' up in
          let order =
            Splits-le frames to from 0 m idx_to idx bound' q p
              (λ t. backward_before frames from to t m backward) in
          let loop =
            report_loop-picked frames (passes from to at_start) to frames frames [] idx_to idx
              (idx - idx_to) refl
              (λ i t e. ground (arith, backward, not_forward, order, p i t e, q i t e))
              (omega arith) (omega (arith, order)) (omega (arith, bound)) in
          ground (arith, backward, not_forward, r, r', order, loop)
      | inr not_backward ↦
          let none_picked =
            picked-none frames (passes from to at_start) to 0 0 frames 0
              (λ i t e. ground (arith, not_forward, not_backward)) (inl (omega arith)) in
          ground (arith, not_forward, not_backward, none_picked)
    ]
  ]
