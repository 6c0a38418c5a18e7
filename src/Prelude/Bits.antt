-- ===== src/Prelude/Bits.antt =====
-- Masks, shifts and disjoint fields as arithmetic, for every width.
use Prim.Native.Nat.{
  ℕ, zero, suc, ◌+◌, ◌-◌, ◌*◌, ◌/◌, ◌%◌, ◌^◌, ◌≤◌, ◌<◌, min, max, bit_and, bit_or, digits,
  bit_and-bitwise, bit_or-bitwise,
}
use mathlib.Core.Path.{◌≡◌, refl, ap, ◌∙◌}
use native.Mathlib.Decide.{dec_lt}
use native.Mathlib.Nat.{pow-suc, one-le-pow}
use native.Mathlib.Omega.{arith}

-- Past the first number, one more unit of fuel makes no digit.
spare_unit :
    (z : ℕ → ℕ) (f : ℕ → ℕ → ℕ) (a b fuel : ℕ)
    → a ≤ fuel
    → digits z f (suc fuel) a b ≡ digits z f fuel a b
spare_unit z f zero b zero h = refl
spare_unit z f zero b (suc fuel) h = refl
spare_unit z f (suc a) b zero h = absurd (omega arith)
spare_unit z f (suc a) b (suc fuel) h =
    ap (λ t. t * 2 + f (suc a % 2) (b % 2)) (spare_unit z f (suc a / 2) (b / 2) fuel (omega arith))

spare_fuel :
    (z : ℕ → ℕ) (f : ℕ → ℕ → ℕ) (a b less fuel : ℕ)
    → a ≤ less
    → less ≤ fuel
    → digits z f fuel a b ≡ digits z f less a b
spare_fuel z f a b less zero h k = let e : 0 ≡ less = omega arith in rw (← e)
spare_fuel z f a b less (suc fuel) h k = elim (dec_lt fuel less) [
  | yes last ↦ let e : suc fuel ≡ less = omega arith in rw (← e)
  | no more ↦ spare_unit z f a b fuel (omega arith) ∙ spare_fuel z f a b less fuel h (omega arith)
]

or_digit : (a b : ℕ) → bit_or a b ≡ bit_or (a / 2) (b / 2) * 2 + max (a % 2) (b % 2)
or_digit zero b = omega (arith, bit_or-bitwise 0 b, bit_or-bitwise 0 (b / 2))
or_digit (suc a) b = omega (
  arith,
  bit_or-bitwise (suc a) b,
  bit_or-bitwise (suc a / 2) (b / 2),
  spare_fuel (λ y. y) max (suc a / 2) (b / 2) (suc a / 2) a (omega arith) (omega arith),
)

and_digit : (a b : ℕ) → bit_and a b ≡ bit_and (a / 2) (b / 2) * 2 + min (a % 2) (b % 2)
and_digit zero b = omega (arith, bit_and-bitwise 0 b, bit_and-bitwise 0 (b / 2))
and_digit (suc a) b = omega (
  arith,
  bit_and-bitwise (suc a) b,
  bit_and-bitwise (suc a / 2) (b / 2),
  spare_fuel (λ y. 0) min (suc a / 2) (b / 2) (suc a / 2) a (omega arith) (omega arith),
)

bit_or-zero_fuel : (n b : ℕ) → b ≤ n → bit_or b 0 ≡ b
bit_or-zero_fuel n zero h = refl
bit_or-zero_fuel zero (suc b) h = absurd (omega arith)
bit_or-zero_fuel (suc n) (suc b) h =
    omega (arith, or_digit (suc b) 0, bit_or-zero_fuel n (suc b / 2) (omega arith))

pub bit_or-zero : (b : ℕ) → bit_or b 0 ≡ b
bit_or-zero b = bit_or-zero_fuel b b (omega arith)

pub zero-bit_or : (b : ℕ) → bit_or 0 b ≡ b
zero-bit_or b = bit_or-bitwise 0 b

bit_and-zero_fuel : (n b : ℕ) → b ≤ n → bit_and b 0 ≡ 0
bit_and-zero_fuel n zero h = refl
bit_and-zero_fuel zero (suc b) h = absurd (omega arith)
bit_and-zero_fuel (suc n) (suc b) h =
    omega (arith, and_digit (suc b) 0, bit_and-zero_fuel n (suc b / 2) (omega arith))

pub bit_and-zero : (b : ℕ) → bit_and b 0 ≡ 0
bit_and-zero b = bit_and-zero_fuel b b (omega arith)

-- `low | (high << s)` is a sum when `low` has no bit at `s` or above.
pub or_disjoint : (s low high : ℕ) → low < 2 ^ s → bit_or low (high * 2 ^ s) ≡ low + high * 2 ^ s
or_disjoint zero low high h =
    let e : low ≡ 0 = omega arith in rw e (omega (arith, zero-bit_or (high * 2 ^ 0)))
or_disjoint (suc s) low high h = ground (
  arith,
  or_digit low (high * 2 ^ suc s),
  pow-suc 2 s,
  ap (λ (t : ℕ). high * t) (pow-suc 2 s),
  or_disjoint s (low / 2) high,
)

and_mask_digits : (s q r : ℕ) → r < 2 ^ s → bit_and (q * 2 ^ s + r) (2 ^ s - 1) ≡ r
and_mask_digits zero q r h = rw (bit_and-zero (q * 2 ^ 0 + r)) (omega arith)
and_mask_digits (suc s) q r h = ground (
  arith,
  and_digit (q * 2 ^ suc s + r) (2 ^ suc s - 1),
  pow-suc 2 s,
  one-le-pow s 2,
  ap (λ (t : ℕ). q * t) (pow-suc 2 s),
  and_mask_digits s q (r / 2),
)

-- A mask of `s` ones keeps the remainder by `2 ^ s`.
pub and_low : (s a : ℕ) → bit_and a (2 ^ s - 1) ≡ a % 2 ^ s
and_low s a = ground (arith, one-le-pow s 2, and_mask_digits s (a / 2 ^ s) (a % 2 ^ s))

-- `|` of two numbers of `w` bits has `w` bits.
pub bit_or-lt : (w a b : ℕ) → a < 2 ^ w → b < 2 ^ w → bit_or a b < 2 ^ w
bit_or-lt zero a b h k = let e : a ≡ 0 = omega arith in rw e (omega (arith, zero-bit_or b))
bit_or-lt (suc w) a b h k = ground (arith, or_digit a b, pow-suc 2 w, bit_or-lt w (a / 2) (b / 2))

-- The masks of a byte's group of seven bits and of its top bit, and of the six bits below that.
pub and_0x7f : (a : ℕ) → bit_and a 0x7f ≡ a % 128
and_0x7f a = and_low 7 a

pub or_top : (a : ℕ) → a < 128 → bit_or a 0x80 ≡ a + 128
or_top a h = or_disjoint 7 a 1 h

pub and_top : (a : ℕ) → a < 256 → bit_and a 0x80 ≡ a / 128 * 128
and_top a h = ground (
  arith,
  and_digit a 0x80,
  and_digit (a / 2) 0x40,
  and_digit (a / 2 / 2) 0x20,
  and_digit (a / 2 / 2 / 2) 0x10,
  and_digit (a / 2 / 2 / 2 / 2) 8,
  and_digit (a / 2 / 2 / 2 / 2 / 2) 4,
  and_digit (a / 2 / 2 / 2 / 2 / 2 / 2) 2,
  and_digit (a / 2 / 2 / 2 / 2 / 2 / 2 / 2) 1,
  bit_and-zero (a / 2 / 2 / 2 / 2 / 2 / 2 / 2 / 2),
)

-- `(high << s) | low`, the same the other way round.
pub or_fields : (s high low : ℕ) → low < 2 ^ s → bit_or (high * 2 ^ s) low ≡ high * 2 ^ s + low
or_fields zero high low h =
    let e : low ≡ 0 = omega arith in rw e (omega (arith, bit_or-zero (high * 2 ^ 0)))
or_fields (suc s) high low h = ground (
  arith,
  or_digit (high * 2 ^ suc s) low,
  pow-suc 2 s,
  ap (λ (t : ℕ). high * t) (pow-suc 2 s),
  or_fields s high (low / 2),
)

or_half : (a b : ℕ) → bit_or a b / 2 ≡ bit_or (a / 2) (b / 2)
or_half a b = omega (arith, or_digit a b)

and-or_fuel : (n a b : ℕ) → b ≤ n → bit_and (bit_or a b) b ≡ b
and-or_fuel zero a b h = let e : b ≡ 0 = omega arith in rw e (bit_and-zero (bit_or a 0))
and-or_fuel (suc n) a b h =
    let e = and_digit (bit_or a b) b in
    let ih = and-or_fuel n (a / 2) (b / 2) (omega arith) in
    omega (arith, rw (or_half a b, ih) at e, or_digit a b)

-- What was just added is there.
pub and-or_right : (a b : ℕ) → bit_and (bit_or a b) b ≡ b
and-or_right a b = and-or_fuel b a b (omega arith)

and-or_left_fuel : (n a b c : ℕ) → b ≤ n → bit_and a b ≡ b → bit_and (bit_or a c) b ≡ b
and-or_left_fuel zero a b c h k = let e : b ≡ 0 = omega arith in rw e (bit_and-zero (bit_or a c))
and-or_left_fuel (suc n) a b c h k =
    let e = and_digit (bit_or a c) b in
    let half : bit_and (a / 2) (b / 2) ≡ b / 2 = omega (arith, k, and_digit a b) in
    let ih = and-or_left_fuel n (a / 2) (b / 2) (c / 2) (omega arith) half in
    omega (arith, rw (or_half a c, ih) at e, or_digit a c, k, and_digit a b)

-- What was there stays.
pub and-or_left : (a b c : ℕ) → bit_and a b ≡ b → bit_and (bit_or a c) b ≡ b
and-or_left a b c k = and-or_left_fuel b a b c (omega arith) k
