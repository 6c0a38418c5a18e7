-- ===== src/Text/Utf/Surrogates.antt =====
-- `ToUTF16` in the basic plane and outside it.
use rive_cpp_legacy.Prelude.{
  ℕ, ◌+◌, ◌/◌, ◌%◌, ◌^◌, ◌≤◌, ◌<◌, ◌≡◌, refl, true, [], ◌∷◌, some, ltb, ltb→lt, bit_or, arith,
  and_low, check_from, check_from_passed, or_fields,
}
use rive_cpp_legacy.Text.Utf.{to_utf16}

high_table : check_from 0 0x440 (λ x. ltb (bit_or 0xd7c0 x) 0xd800) ≡ true
unfolding check_from
high_table = refl

high_below : (x : ℕ) → x < 0x440 → bit_or 0xd7c0 x < 0xd800
high_below x h =
    ltb→lt _ _
      (check_from_passed 0 0x440 (λ y. ltb (bit_or 0xd7c0 y) 0xd800) high_table x (omega arith) h)

-- A code point up to 0xffff is written as it is. For one above, two units are written, of which the
-- second is the low surrogate of the code point and the first is no surrogate at all.
pub to_utf16_units :
    (uni : ℕ)
    → uni < 0x110000
    → (uni ≤ 0xffff → to_utf16 uni ≡ some (uni ∷ []))
      × (0xffff < uni
          → (high : ℕ) × (to_utf16 uni ≡ some (high ∷ (0xdc00 + uni % 0x400) ∷ []))
            × (high < 0xd800))
unfolding to_utf16
to_utf16_units uni h = (
  λ k. ground arith,
  λ k. (
    bit_or 0xd7c0 (uni / 2 ^ 10),
    ground (arith, high_below (uni / 2 ^ 10), and_low 10 uni, or_fields 10 55 (uni % 0x400)),
    high_below (uni / 2 ^ 10) (omega arith),
  ),
)
