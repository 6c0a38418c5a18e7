-- ===== src/Core/Reader/Keeps.antt =====
-- What every read of BinaryReader (src/core/binary_reader.cpp) but `readBytes` keeps, also behind a
-- `readBytes`, which may leave the position behind the end.
use rive_cpp_legacy.Prelude.{
  ℕ, ◌+◌, ◌-◌, ◌≤◌, ◌<◌, ◌≡◌, refl, sym, ap, subst, ◌∙◌, ◌⊎◌, inl, inr, Bool, true, List, [], some,
  arith, length, length-drop, Bool-cases, Option-cases,
}
use rive_cpp_legacy.Prelude.Int.{ℤ, pos}
use rive_cpp_legacy.Core.Leb.{decode_uint_leb}
use rive_cpp_legacy.Core.Leb.Bounds.{decode_uint_leb_bounds}
use rive_cpp_legacy.Core.Reader.{
  Reader, ahead, has_error, decode_string, overflow, set_int_range_error, read_var_uint64,
  read_string, read_float32, read_byte, read_uint32, Width, fits_in, to_intmax, cast,
  read_var_uint_as, as_int, as_uint16, as_uint32,
}
use rive_cpp_legacy.Core.Reader.Valid.{Decoded-cases}

-- How many bytes are left.
abbrev pub left : Reader → ℕ
left r = length r.bytes - r.position

-- After an error nothing is left.
abbrev pub IsSpent : Reader → Type 0
IsSpent r = has_error r ≡ true → length r.bytes ≤ r.position

-- From `r` to `s` nothing is given back, and an error stays one.
pub record Keeps (r s : Reader) : Type 0 where
  pub same : s.bytes ≡ r.bytes
  pub fewer : left s ≤ left r
  pub sticky : has_error r ≡ true → has_error s ≡ true
  pub spent : IsSpent s

-- A value was read, or there is an error.
abbrev pub Takes : Reader → Reader → Type 0
Takes r s = Keeps r s × ((left s < left r) ⊎ (has_error s ≡ true))

pub Keeps-refl : (r : Reader) → IsSpent r → Keeps r r
Keeps-refl r h = record { same = refl; fewer = omega arith; sticky = λ e. e; spent = h }

pub Keeps-trans : (r s t : Reader) → Keeps r s → Keeps s t → Keeps r t
Keeps-trans r s t h k = record {
  same = k.same ∙ h.same;
  fewer = omega (arith, h.fewer, k.fewer);
  sticky = λ e. k.sticky (h.sticky e);
  spent = k.spent;
}

Takes-overflow : (r : Reader) → Takes r (overflow r)
unfolding overflow has_error
Takes-overflow r = ground arith

Takes-step :
    (r : Reader) (n : ℕ)
    → IsSpent r
    → 0 < n
    → n ≤ length (ahead r)
    → Takes r (record r { position = r.position + n })
unfolding has_error
Takes-step r n h k l = ground (arith, length-drop r.position r.bytes)

pub read_var_uint64-Takes :
    (r s : Reader) (value : ℕ)
    → IsSpent r
    → read_var_uint64 r ≡ some (value, s)
    → Takes r s × (has_error s ≡ true → value ≡ 0)
unfolding read_var_uint64 has_error
read_var_uint64-Takes r s value h e = elim (Decoded-cases (decode_uint_leb (ahead r))) [
  | inl d ↦ ground (arith, d, Takes-overflow r)
  | inr (inl d) ↦ ground (arith, d)
  | inr (inr (x, n, d)) ↦
      let (_, lo, _, hi, _) = decode_uint_leb_bounds (ahead r) [] x n d in
      let there : s ≡ record r { position = r.position + n } = ground (arith, d, e) in
      (
        subst (λ t. Takes r t) (sym there) (Takes-step r n h lo hi),
        λ failed. absurd (ground (arith, failed, there, lo, hi, h, length-drop r.position r.bytes)),
      )
]

Takes-range : (r s : Reader) → Keeps r s → Takes r (set_int_range_error s)
unfolding set_int_range_error has_error
Takes-range r s h = ground arith

cast_zero : (T : Width) → cast T 0 ≡ pos 0
unfolding cast
cast_zero as_uint16 = refl
cast_zero as_uint32 = refl
cast_zero as_int = refl

-- A read that fails gives 0.
pub read_var_uint_as-Takes :
    (T : Width) (r s : Reader) (value : ℤ)
    → IsSpent r
    → read_var_uint_as T r ≡ some (value, s)
    → Takes r s × (has_error s ≡ true → value ≡ pos 0)
unfolding read_var_uint_as
read_var_uint_as-Takes T r s value h e = elim (Option-cases (read_var_uint64 r)) [
  | inl nothing ↦ absurd (ground (arith, nothing, e))
  | inr ((x, t), there) ↦
      let (takes, failed) = read_var_uint64-Takes r t x h there in
      elim (Bool-cases (fits_in T (to_intmax x))) [
        | inl fits ↦
            let same : s ≡ t = ground (arith, there, fits, e) in
            let known : value ≡ cast T x = ground (arith, there, fits, e) in
            (
              subst (λ u. Takes r u) (sym same) takes,
              λ bad. known ∙ ap (cast T) (failed (ap has_error (sym same) ∙ bad)) ∙ cast_zero T,
            )
        | inr wide ↦
            let same : s ≡ set_int_range_error t = ground (arith, there, wide, e) in
            let known : value ≡ cast T 0 = ground (arith, there, wide, e) in
            (
              subst (λ u. Takes r u) (sym same) (Takes-range r t takes.0),
              λ bad. known ∙ cast_zero T,
            )
      ]
]

pub read_string-Keeps :
    (r s : Reader) (text : List ℕ) → IsSpent r → read_string r ≡ some (text, s) → Keeps r s
unfolding read_string decode_string overflow has_error
read_string-Keeps r s text h e = elim (Option-cases (read_var_uint64 r)) [
  | inl nothing ↦ absurd (ground (arith, nothing, e))
  | inr ((x, t), there) ↦
      let takes = (read_var_uint64-Takes r t x h there).0 in ground (arith, there, e, takes.0)
]

pub read_float32-Keeps :
    (big : Bool) (r s : Reader) (v : ℕ) → IsSpent r → read_float32 big r ≡ some (v, s) → Keeps r s
unfolding read_float32 overflow has_error
read_float32-Keeps big r s v h e = ground arith

pub read_uint32-Keeps :
    (big : Bool) (r s : Reader) (v : ℕ) → IsSpent r → read_uint32 big r ≡ some (v, s) → Keeps r s
unfolding read_uint32 overflow has_error
read_uint32-Keeps big r s v h e = ground arith

pub read_byte-Keeps : (r s : Reader) (v : ℕ) → IsSpent r → read_byte r ≡ some (v, s) → Keeps r s
unfolding read_byte overflow has_error
read_byte-Keeps r s v h e = ground arith
