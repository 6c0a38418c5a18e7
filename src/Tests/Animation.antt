-- ===== src/Tests/Animation.antt =====
-- Keyframes at whole numbers.
use rive_cpp_legacy.Prelude.{
  ℕ, zero, suc, ◌-◌, ◌≡◌, refl, true, false, List, [], ◌∷◌, some, arith, ltb,
}
use rive_cpp_legacy.Animation.Keyframes.{Floats, Applied, apply_at, report_keyed_callbacks}
use rive_cpp_legacy.Animation.Keyframes.Search.{IsIncreasing}
use rive_cpp_legacy.Animation.Keyframes.Apply.{IsRight, apply_at-IsRight}
use rive_cpp_legacy.Animation.Keyframes.Report.{passes, picked, report_keyed_callbacks-passes}

ltb_irrefl : (a : ℕ) → ltb a a ≡ false
ltb_irrefl a = ground arith

ltb_trans : (a b c : ℕ) → ltb a b ≡ true → ltb b c ≡ true → ltb a c ≡ true
ltb_trans a b c h k = ground arith

ltb_total : (a b : ℕ) → ltb a b ≡ false → ltb b a ≡ false → a ≡ b
ltb_total a b h k = ground arith

abbrev whole : Floats
whole = record {
  Float = ℕ;
  lt = ltb;
  sub = λ a b. a - b;
  lt_irrefl = ltb_irrefl;
  lt_trans = ltb_trans;
  lt_total = ltb_total;
}

abbrev frames : List ℕ
frames = 2 ∷ 5 ∷ 9 ∷ []

frames-IsIncreasing : IsIncreasing whole frames
frames-IsIncreasing zero zero t u k g h = ground arith
frames-IsIncreasing zero (suc zero) t u k g h = ground arith
frames-IsIncreasing zero (suc (suc zero)) t u k g h = ground arith
frames-IsIncreasing zero (suc (suc (suc j))) t u k g h = ground arith
frames-IsIncreasing (suc zero) zero t u k g h = ground arith
frames-IsIncreasing (suc zero) (suc zero) t u k g h = ground arith
frames-IsIncreasing (suc zero) (suc (suc zero)) t u k g h = ground arith
frames-IsIncreasing (suc zero) (suc (suc (suc j))) t u k g h = ground arith
frames-IsIncreasing (suc (suc i)) zero t u k g h = ground arith
frames-IsIncreasing (suc (suc i)) (suc zero) t u k g h = ground arith
frames-IsIncreasing (suc (suc i)) (suc (suc zero)) t u k g h = ground arith
frames-IsIncreasing (suc (suc i)) (suc (suc (suc j))) t u k g h = ground arith

report_step : report_keyed_callbacks whole frames 2 9 false ≡ some ((1, 4) ∷ (2, 0) ∷ [])
unfolding report_keyed_callbacks
report_step = refl

-- Between the keyframes 1 and 2, of which the first has an interpolation.
apply_test : apply_at whole frames (λ i. 1) 7 ≡ some (Applied.apply_interpolation 1 2)
unfolding apply_at
apply_test = refl

apply_at-IsRight_example :
    (applied : Applied) × (apply_at whole frames (λ i. 1) 7 ≡ some applied)
    × IsRight whole frames (λ i. 1) 7 applied
apply_at-IsRight_example =
    apply_at-IsRight whole frames (λ i. 1) 7 (omega arith) frames-IsIncreasing

report_keyed_callbacks-passes_example :
    report_keyed_callbacks whole frames 2 9 false
    ≡ some (picked whole frames (passes whole 2 9 false) 9 0 frames)
report_keyed_callbacks-passes_example =
    report_keyed_callbacks-passes whole frames 2 9 false (omega arith) frames-IsIncreasing
