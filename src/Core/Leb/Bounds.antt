-- ===== src/Core/Leb/Bounds.antt =====
-- What the decoders return on any input.
use native.Mathlib.Nat.{mod-lt, one-le-pow}
use rive_cpp_legacy.Prelude.{
  ℕ, zero, suc, ◌+◌, ◌*◌, ◌↔◌, ◌%◌, ◌^◌, ◌≤◌, ◌<◌, ◌≡◌, ◌≢◌, List, [], ◌∷◌, ◌++◌, arith, length,
  bit_and, bit_or, bit_or-lt,
}
use rive_cpp_legacy.Core.Leb.{undefined, read, leb_loop, decode_uint_leb}

-- The value after one more byte.
abbrev pub or_group : ℕ → ℕ → ℕ → ℕ → ℕ
or_group width b shift result = bit_or result (bit_and b 0x7f * 2 ^ shift % 2 ^ width)

leb_loop_count :
    (width : ℕ) (buf : List ℕ) (shift result n v m : ℕ)
    → leb_loop width buf shift result n ≡ read v m
    → (n < m) × (m ≤ n + length buf)
unfolding leb_loop
leb_loop_count width [] shift result n v m e = ground arith
leb_loop_count width (b ∷ p) shift result n v m e =
    ground (
      arith,
      leb_loop_count width p ((shift + 7) % 256) (or_group width b shift result) (n + 1) v m,
    )

or_group-lt :
    (width b shift result : ℕ) → result < 2 ^ width → or_group width b shift result < 2 ^ width
or_group-lt width b shift result h =
    bit_or-lt width result _ h
      (mod-lt (bit_and b 0x7f * 2 ^ shift) (one-le-pow width 2 (omega arith)))

leb_loop_value :
    (width : ℕ) (buf : List ℕ) (shift result n v m : ℕ)
    → result < 2 ^ width
    → leb_loop width buf shift result n ≡ read v m
    → v < 2 ^ width
unfolding leb_loop
leb_loop_value width [] shift result n v m h e = ground arith
leb_loop_value width (b ∷ p) shift result n v m h e = ground (
  arith,
  or_group-lt width b shift result,
  leb_loop_value width p ((shift + 7) % 256) (or_group width b shift result) (n + 1) v m,
)

-- Bytes behind the integer change nothing.
pub leb_loop-append :
    (width : ℕ) (buf more : List ℕ) (shift result n v m : ℕ)
    → leb_loop width buf shift result n ≡ read v m
    → leb_loop width (buf ++ more) shift result n ≡ read v m
unfolding leb_loop
leb_loop-append width [] more shift result n v m e = ground arith
leb_loop-append width (b ∷ p) more shift result n v m e = ground (
  arith,
  leb_loop-append width p more ((shift + 7) % 256) (or_group width b shift result) (n + 1) v m,
)

-- After the j-th byte the shift is 7 * j, so that a 64-bit integer has at most ten bytes.
leb_loop_ten :
    (buf : List ℕ) (j result v m : ℕ)
    → j ≤ 10
    → leb_loop 64 buf (7 * j) result j ≡ read v m
    → m ≤ 10
unfolding leb_loop
leb_loop_ten [] j result v m h e = ground arith
leb_loop_ten (b ∷ p) j result v m h e =
    ground (arith, leb_loop_ten p (j + 1) (or_group 64 b (7 * j) result) v m)

-- A decoded integer fits 64 bits and took one to ten bytes of the buffer, and the bytes behind
-- those have no part in it.
pub decode_uint_leb_bounds :
    (buf more : List ℕ) (v m : ℕ)
    → decode_uint_leb buf ≡ read v m
    → (v < 2 ^ 64)
      × (1 ≤ m)
      × (m ≤ 10)
      × (m ≤ length buf)
      × (decode_uint_leb (buf ++ more) ≡ read v m)
unfolding decode_uint_leb
decode_uint_leb_bounds buf more v m e =
    let (lo, hi) = leb_loop_count 64 buf 0 0 0 v m e in
    (
      leb_loop_value 64 buf 0 0 0 v m (omega arith) e,
      omega arith,
      leb_loop_ten buf 0 0 v m (omega arith) e,
      omega arith,
      leb_loop-append 64 buf more 0 0 0 v m e,
    )

-- The first `k` bytes have their top bit set, and there is one more.
abbrev pub Continues : ℕ → List ℕ → Type 0
Continues k [] = ⊥
Continues zero (b ∷ p) = Unit {0}
Continues (suc k) (b ∷ p) = (bit_and b 0x80 ≢ 0) × Continues k p

leb_loop_undefined :
    (buf : List ℕ) (k j result : ℕ)
    → k + j ≡ 10
    → (leb_loop 64 buf (7 * j) result j ≡ undefined) ↔ Continues k buf
unfolding leb_loop
leb_loop_undefined [] zero j result h = (λ e. cc, λ c. absurd c)
leb_loop_undefined [] (suc k) j result h = (λ e. cc, λ c. absurd c)
leb_loop_undefined (b ∷ p) zero j result h = ground arith
leb_loop_undefined (b ∷ p) (suc k) j result h =
    ground (arith, leb_loop_undefined p k (j + 1) (or_group 64 b (7 * j) result))

-- The decoder shifts by 64 or more, which C++ leaves undefined, exactly on the buffers that go on
-- after ten bytes with their top bit set.
pub decode_uint_leb_undefined :
    (buf : List ℕ) → (decode_uint_leb buf ≡ undefined) ↔ Continues 10 buf
unfolding decode_uint_leb
decode_uint_leb_undefined buf = leb_loop_undefined buf 10 0 0 (omega arith)
