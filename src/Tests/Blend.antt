-- ===== src/Tests/Blend.antt =====
-- A blend of three animations over whole numbers (src/animation/blend_state_1d_instance.cpp).
use rive_cpp_legacy.Prelude.{
  ℕ, zero, suc, true, false, ◌-◌, ◌*◌, ◌/◌, ◌<◌, ◌≤◌, ◌≡◌, refl, List, [], ◌∷◌, some, arith, ltb,
  get_elem?, if◌then◌else◌, ◌==◌, ==_iff,
}
use rive_cpp_legacy.Animation.Keyframes.Search.{IsIncreasing, Splits}
use rive_cpp_legacy.Animation.Blend.{Weights, advance_mixes}
use rive_cpp_legacy.Animation.Blend.Mixes.{shares_at, advance_mixes-shares}

ltb_irrefl : (a : ℕ) → ltb a a ≡ false
ltb_irrefl a = ground arith

ltb_trans : (a b c : ℕ) → ltb a b ≡ true → ltb b c ≡ true → ltb a c ≡ true
ltb_trans a b c h k = ground arith

ltb_total : (a b : ℕ) → ltb a b ≡ false → ltb b a ≡ false → a ≡ b
ltb_total a b h k = ground arith

-- Weights in hundredths.
abbrev percents : Weights
percents = record {
  floats = record {
    Float = ℕ;
    lt = ltb;
    sub = ◌-◌;
    lt_irrefl = ltb_irrefl;
    lt_trans = ltb_trans;
    lt_total = ltb_total;
  };
  eq = ◌==◌;
  eq_iff = ==_iff;
  zero_weight = 0;
  one_weight = 100;
  div = λ a b. a * 100 / b;
}

abbrev values : List ℕ
values = 10 ∷ 20 ∷ 40 ∷ []

values-IsIncreasing : IsIncreasing percents.floats values
values-IsIncreasing zero zero t u k g h = ground arith
values-IsIncreasing zero (suc zero) t u k g h = ground arith
values-IsIncreasing zero (suc (suc zero)) t u k g h = ground arith
values-IsIncreasing zero (suc (suc (suc j))) t u k g h = ground arith
values-IsIncreasing (suc zero) zero t u k g h = ground arith
values-IsIncreasing (suc zero) (suc zero) t u k g h = ground arith
values-IsIncreasing (suc zero) (suc (suc zero)) t u k g h = ground arith
values-IsIncreasing (suc zero) (suc (suc (suc j))) t u k g h = ground arith
values-IsIncreasing (suc (suc i)) zero t u k g h = ground arith
values-IsIncreasing (suc (suc i)) (suc zero) t u k g h = ground arith
values-IsIncreasing (suc (suc i)) (suc (suc zero)) t u k g h = ground arith
values-IsIncreasing (suc (suc i)) (suc (suc (suc j))) t u k g h = ground arith

between_test : advance_mixes percents values 25 ≡ some (0 ∷ 75 ∷ 25 ∷ [])
unfolding advance_mixes
between_test = refl

below_test : advance_mixes percents values 3 ≡ some (100 ∷ 0 ∷ 0 ∷ [])
unfolding advance_mixes
below_test = refl

beyond_test : advance_mixes percents values 50 ≡ some (0 ∷ 0 ∷ 100 ∷ [])
unfolding advance_mixes
beyond_test = refl

advance_mixes-shares_example :
    (index : ℕ) × (mixed : List ℕ) × (advance_mixes percents values 25 ≡ some mixed)
    × (index ≤ 3)
    × Splits percents.floats values 25 0 index
    × ((i : ℕ)
        → i < 3
        → get_elem? mixed i
          ≡ some (
              if i == index
              then (shares_at percents values 25 index).0
              else if suc i == index
              then (shares_at percents values 25 index).1
              else 0))
advance_mixes-shares_example = advance_mixes-shares percents values 25 values-IsIncreasing
