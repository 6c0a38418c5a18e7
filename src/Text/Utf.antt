-- ===== src/Text/Utf.antt =====
-- src/text/utf.cpp. A text is the list of the bytes from the pointer on. `none` is a failed
-- assertion or a read past the list; `castTo<uint16_t>` asserts that the value fits.
pub mod RoundTrip
pub mod Surrogates
use rive_cpp_legacy.Prelude.{
  ℕ, zero, suc, ◌+◌, ◌-◌, ◌*◌, ◌/◌, ◌%◌, ◌^◌, Bool, true, false, not, ◌&&◌, ◌||◌, List, [], ◌∷◌,
  Option, none, some, leb, ltb, ◌==◌, if◌then◌else◌, bit_and, bit_or,
}

-- The `while` loop that counts the ones behind the top bit. `lead` is 32 bits wide.
unfoldable pub count_ones : ℕ → ℕ → ℕ → ℕ
count_ones zero lead n = n
count_ones (suc fuel) lead n =
    let rest = count_ones fuel (lead * 2 % 2 ^ 32) (n + 1) in
    if bit_and lead 0x80 == 0 then n else rest

-- A byte has eight bits, so that eight rounds are enough.
unfoldable pub count_utf8_length : ℕ → Option ℕ
unfolding count_ones
count_utf8_length lead =
    if lead == 0xff || bit_and lead 0xc0 == 0x80
    then none
    else if bit_and lead 0x80 == 0
    then some 1
    else let n = count_ones 8 (lead * 2 % 2 ^ 32) 1 in if leb 1 n && leb n 4 then some n else none

-- The `do` loop over the bytes that follow, of which `n` are left.
unfoldable pub next_bytes : ℕ → ℕ → List ℕ → Option (ℕ × List ℕ)
next_bytes zero c text = some (c, text)
next_bytes (suc n) c [] = none
next_bytes (suc n) c (b ∷ text) = next_bytes n (bit_or (c * 2 ^ 6 % 2 ^ 32) (bit_and b 0x3f)) text

-- The code point, and the pointer behind it.
unfoldable pub next_utf8 : List ℕ → Option (ℕ × List ℕ)
unfolding count_utf8_length next_bytes
next_utf8 [] = none
next_utf8 (first ∷ text) = elim (count_utf8_length first) [
  | none ↦ none
  | some n ↦
      if n == 1 then some (first, text) else next_bytes (n - 1) (bit_and first (0xff / 2 ^ n)) text
]

unfoldable pub cast_to_uint16 : ℕ → Option ℕ
cast_to_uint16 x = if ltb x (2 ^ 16) then some x else none

-- The units that are written, one or two; their number is what the function returns.
unfoldable pub to_utf16 : ℕ → Option (List ℕ)
unfolding cast_to_uint16
to_utf16 uni =
    if ltb 0xffff uni
    then elim (cast_to_uint16 (bit_or (0xd800 - 64) (uni / 2 ^ 10))) [
      | none ↦ none
      | some high ↦ elim (cast_to_uint16 (bit_or 0xdc00 (bit_and uni 0x3ff))) [
        | none ↦ none
        | some low ↦ some (high ∷ low ∷ [])
      ]
    ]
    else elim (cast_to_uint16 uni) [ none ↦ none | some unit ↦ some (unit ∷ []) ]
