-- ===== src/Core/Leb/RoundTrip.antt =====
-- What `writeVarUint` writes is read back.
use native.Mathlib.Nat.{pow-le-pow_right, mod-eq_of_lt, div-add-mod, mul-le-mul_right, pow-suc}
use native.Mathlib.Decide.{dec_lt}
use native.Mathlib.Numerals.{towards_suc}
use rive_cpp_legacy.Prelude.{
  ℕ, zero, suc, ◌+◌, ◌*◌, ◌/◌, ◌%◌, ◌^◌, ◌≤◌, ◌<◌, ◌≡◌, ◌≢◌, ap, List, [], ◌∷◌, ◌++◌, some, arith,
  length, All, bit_and, bit_or, and_0x7f, and_top, or_top, or_disjoint, Option-cases, ◌⊎◌, inl, inr,
}
use rive_cpp_legacy.Core.Leb.Bounds.{decode_uint_leb_bounds}
use rive_cpp_legacy.Core.Leb.{
  IsByte, read, leb_loop, decode_uint_leb, decode_uint_leb32, var_uint_loop, write_var_uint,
}

lt_of_pow : (s w v : ℕ) → v ≢ 0 → v * 2 ^ s < 2 ^ w → s < w
lt_of_pow s w v h k = elim (dec_lt s w) [
  | yes p ↦ p
  | no p ↦
      let up : 2 ^ w ≤ 2 ^ s = pow-le-pow_right (omega arith) (omega arith) in
      let wide : 1 * 2 ^ s ≤ v * 2 ^ s = grind arith in absurd (omega arith)
]

pow_seven : (s : ℕ) → 2 ^ (s + 7) ≡ 128 * 2 ^ s
pow_seven s = simp towards_suc (omega arith)

-- The low group of seven bits of `v`, and the rest of `v`, both from bit `s` on.
groups : (v s : ℕ) → v * 2 ^ s ≡ v % 128 * 2 ^ s + v / 128 * 2 ^ (s + 7)
groups v s = omega (
  arith,
  ap (λ (t : ℕ). t * 2 ^ s) (div-add-mod v 128),
  ap (λ (t : ℕ). v / 128 * t) (pow_seven s),
)

-- A successful round wrote the last group, or a group with the top bit set and then the others.
var_uint_loop_cases :
    (room v : ℕ) (bytes : List ℕ)
    → var_uint_loop (suc room) v ≡ some bytes
    → ((v < 128) × (bytes ≡ v ∷ []))
      ⊎ ((tl : List ℕ) × (128 ≤ v)
          × (var_uint_loop room (v / 128) ≡ some tl)
          × (bytes ≡ (v % 128 + 128) ∷ tl))
unfolding var_uint_loop
var_uint_loop_cases room v bytes e = elim (Option-cases (var_uint_loop room (v / 128))) [
  | inl out ↦ inl (ground (arith, and_0x7f v, out))
  | inr (tl, more) ↦ elim (dec_lt v 128) [
    | yes p ↦ inl (ground (arith, and_0x7f v))
    | no p ↦ inr (tl, omega arith, more, ground (arith, and_0x7f v, or_top (v % 128), more))
  ]
]

module _ (width : ℕ) (small : width ≤ 240) where
  -- One round, on a byte `b` that carries the group `g`.
  group_value :
      (b g shift result : ℕ)
      → bit_and b 0x7f ≡ g
      → result < 2 ^ shift
      → result + g * 2 ^ shift < 2 ^ width
      → bit_or result (bit_and b 0x7f * 2 ^ shift % 2 ^ width) ≡ result + g * 2 ^ shift
  group_value b g shift result e h k = ground (
    arith,
    mod-eq_of_lt {n = g * 2 ^ shift} {m = 2 ^ width} (omega arith),
    or_disjoint shift result g h,
  )

  leb_loop_last :
      (g shift result n : ℕ) (rest : List ℕ)
      → g < 128
      → shift < width
      → result < 2 ^ shift
      → result + g * 2 ^ shift < 2 ^ width
      → leb_loop width (g ∷ rest) shift result n ≡ read (result + g * 2 ^ shift) (n + 1)
  unfolding leb_loop
  leb_loop_last g shift result n rest hg hs h k =
      ground (arith, and_0x7f g, and_top g, group_value g g shift result)

  leb_loop_inner :
      (g shift result n : ℕ) (rest : List ℕ)
      → g < 128
      → shift < width
      → result < 2 ^ shift
      → result + g * 2 ^ shift < 2 ^ width
      → leb_loop width ((g + 128) ∷ rest) shift result n
        ≡ leb_loop width rest (shift + 7) (result + g * 2 ^ shift) (n + 1)
  unfolding leb_loop
  leb_loop_inner g shift result n rest hg hs h k =
      ground (arith, and_0x7f (g + 128), and_top (g + 128), group_value (g + 128) g shift result)

  -- `v` is what is still to be read, and it counts from bit `shift` on.
  leb_loop-var_uint_loop :
      (room v shift result n : ℕ) (bytes rest : List ℕ)
      → shift < width
      → result < 2 ^ shift
      → result + v * 2 ^ shift < 2 ^ width
      → var_uint_loop room v ≡ some bytes
      → leb_loop width (bytes ++ rest) shift result n
        ≡ read (result + v * 2 ^ shift) (n + length bytes)
  leb_loop-var_uint_loop zero v shift result n bytes rest hs h k e = unfold var_uint_loop in cc
  leb_loop-var_uint_loop (suc room) v shift result n bytes rest hs h k e =
      elim (var_uint_loop_cases room v bytes e) [
        | inl (small_v, last) ↦ ground (arith, last, leb_loop_last v shift result n rest)
        | inr (tl, big, more, first) ↦
            let total = groups v shift in
            let shift' : shift + 7 < width =
              lt_of_pow (shift + 7) width (v / 128) (λ z. omega arith) (omega arith) in
            let group : v % 128 * 2 ^ shift ≤ 127 * 2 ^ shift = mul-le-mul_right _ (omega arith) in
            let result' : result + v % 128 * 2 ^ shift < 2 ^ (shift + 7) =
              omega (arith, pow_seven shift) in
            let ih =
              leb_loop-var_uint_loop room (v / 128) (shift + 7) (result + v % 128 * 2 ^ shift)
                (n + 1) tl rest shift' result' (omega arith) more in
            ground (arith, first, leb_loop_inner (v % 128) shift result n (tl ++ rest), ih)
      ]

var_uint_loop_total :
    (room v : ℕ)
    → v < 128 ^ suc room
    → (bytes : List ℕ) × (var_uint_loop (suc room) v ≡ some bytes) × All IsByte bytes
unfolding var_uint_loop
var_uint_loop_total zero v h = (v ∷ [], ground (arith, and_0x7f v), omega arith)
var_uint_loop_total (suc room) v h =
    let (tl, e, ok) = var_uint_loop_total room (v / 128) (omega (arith, pow-suc 128 (suc room))) in
    elim (dec_lt v 128) [
      | yes p ↦ (v ∷ [], ground (arith, and_0x7f v), omega arith)
      | no p ↦
          ((v % 128 + 128) ∷ tl, ground (arith, and_0x7f v, or_top (v % 128), e), (omega arith, ok))
    ]

-- For every 64-bit value `writeVarUint` stays within its buffer and writes one to ten bytes, from
-- which `decode_uint_leb` reads the value back, whatever follows, and says how many they were.
pub decode_uint_leb-write_var_uint :
    (value : ℕ) (rest : List ℕ)
    → value < 2 ^ 64
    → (bytes : List ℕ) × (write_var_uint value ≡ some bytes)
      × All IsByte bytes
      × (1 ≤ length bytes)
      × (length bytes ≤ 10)
      × (decode_uint_leb (bytes ++ rest) ≡ read value (length bytes))
unfolding write_var_uint decode_uint_leb
decode_uint_leb-write_var_uint value rest h =
    let (bytes, e, ok) = var_uint_loop_total 15 value (omega arith) in
    let back : decode_uint_leb (bytes ++ rest) ≡ read value (length bytes) = ground (
      arith,
      leb_loop-var_uint_loop 64 (omega arith) 16 value 0 0 0 bytes rest (omega arith) (omega arith)
          (omega arith) e,
    ) in
    let (_, lo, hi, _, _) = decode_uint_leb_bounds (bytes ++ rest) [] value (length bytes) back in
    (bytes, e, ok, lo, hi, back)

-- `decode_uint_leb32` reads a value below 2 ^ 32 back from the bytes that `writeVarUint` writes
-- for it, whatever follows.
decode_uint_leb32-write_var_uint :
    (value : ℕ) (bytes rest : List ℕ)
    → value < 2 ^ 32
    → write_var_uint value ≡ some bytes
    → decode_uint_leb32 (bytes ++ rest) ≡ read value (length bytes)
unfolding write_var_uint decode_uint_leb32
decode_uint_leb32-write_var_uint value bytes rest h e = ground (
  arith,
  leb_loop-var_uint_loop 32 (omega arith) 16 value 0 0 0 bytes rest (omega arith) (omega arith)
      (omega arith) e,
)
