-- ===== src/Text/Utf/RoundTrip.antt =====
-- `NextUTF8` against the encoding of code points by RFC 3629.
use rive_cpp_legacy.Prelude.{
  ℕ, suc, ◌+◌, ◌*◌, ◌/◌, ◌%◌, ◌^◌, ◌<◌, ◌≡◌, refl, Bool, true, false, List, [], ◌∷◌, ◌++◌, Option,
  none, some, ltb, ◌==◌, if◌then◌else◌, arith, and_low, or_fields, dec_lt, check_from,
  check_from_passed,
}
use rive_cpp_legacy.Text.Utf.{count_utf8_length, next_bytes, next_utf8}

-- The bytes of a code point.
abbrev pub utf8 : ℕ → List ℕ
utf8 c =
    if ltb c 0x80
    then c ∷ []
    else if ltb c 0x800
    then (0xc0 + c / 64) ∷ (0x80 + c % 64) ∷ []
    else if ltb c 0x10000
    then (0xe0 + c / 4096) ∷ (0x80 + c / 64 % 64) ∷ (0x80 + c % 64) ∷ []
    else (0xf0 + c / 262144) ∷ (0x80 + c / 4096 % 64) ∷ (0x80 + c / 64 % 64) ∷ (0x80 + c % 64) ∷ []

-- The lead bytes in a table: the number of bytes that each announces.
abbrev announced : ℕ → Option ℕ
announced b =
    if ltb b 0x80
    then some 1
    else if ltb b 0xc0
    then none
    else if ltb b 0xe0
    then some 2
    else if ltb b 0xf0
    then some 3
    else if ltb b 0xf8
    then some 4
    else none

same_option : Option ℕ → Option ℕ → Bool
same_option none none = true
same_option (some a) (some b) = a == b
same_option _ _ = false

lead_table : check_from 0 256 (λ b. same_option (count_utf8_length b) (announced b)) ≡ true
unfolding check_from same_option count_utf8_length
lead_table = refl

same_option→eq : (o p : Option ℕ) → same_option o p ≡ true → o ≡ p
unfolding same_option
same_option→eq none none h = refl
same_option→eq none (some b) h = cc
same_option→eq (some a) none h = cc
same_option→eq (some a) (some b) h = ground arith

count_utf8_length-announced : (b : ℕ) → b < 256 → count_utf8_length b ≡ announced b
count_utf8_length-announced b h = same_option→eq _ _ (
    check_from_passed 0 256 (λ x. same_option (count_utf8_length x) (announced x)) lead_table b
      (omega arith) h)

-- One byte that follows adds its six bits.
next_bytes_step :
    (n c g : ℕ) (text : List ℕ)
    → g < 64
    → c < 2 ^ 20
    → next_bytes (suc n) c ((0x80 + g) ∷ text) ≡ next_bytes n (c * 64 + g) text
unfolding next_bytes
next_bytes_step n c g text h k = ground (arith, and_low 6 (0x80 + g), or_fields 6 c g)

-- `NextUTF8` reads back every code point that is encoded, and leaves the pointer behind it.
pub next_utf8-utf8 :
    (c : ℕ) (rest : List ℕ) → c < 0x110000 → next_utf8 (utf8 c ++ rest) ≡ some (c, rest)
unfolding next_utf8 next_bytes
next_utf8-utf8 c rest h = elim (dec_lt c 0x80) [
  | yes p1 ↦ ground (arith, count_utf8_length-announced c)
  | no p1 ↦ elim (dec_lt c 0x800) [
    | yes p2 ↦ ground (
      arith,
      count_utf8_length-announced (0xc0 + c / 64),
      and_low 6 (0xc0 + c / 64),
      next_bytes_step 0 (c / 64) (c % 64) rest,
    )
    | no p2 ↦ elim (dec_lt c 0x10000) [
      | yes p3 ↦ ground (
        arith,
        count_utf8_length-announced (0xe0 + c / 4096),
        and_low 5 (0xe0 + c / 4096),
        next_bytes_step 1 (c / 4096) (c / 64 % 64) ((0x80 + c % 64) ∷ rest),
        next_bytes_step 0 (c / 64) (c % 64) rest,
      )
      | no p3 ↦ ground (
        arith,
        count_utf8_length-announced (0xf0 + c / 262144),
        and_low 4 (0xf0 + c / 262144),
        next_bytes_step 2 (c / 262144) (c / 4096 % 64)
            ((0x80 + c / 64 % 64) ∷ (0x80 + c % 64) ∷ rest),
        next_bytes_step 1 (c / 4096) (c / 64 % 64) ((0x80 + c % 64) ∷ rest),
        next_bytes_step 0 (c / 64) (c % 64) rest,
      )
    ]
  ]
]
