-- ===== src/Core/Reader/Valid.antt =====
-- What every read but `readBytes` keeps: the position stays inside the buffer, it never goes back,
-- and an error, once set, stays set and leaves nothing to read.
use rive_cpp_legacy.Prelude.{
  ℕ, ◌+◌, ◌≤◌, ◌<◌, ◌≡◌, refl, Bool, true, ◌⊎◌, inl, inr, List, [], ◌∷◌, Option, none, some, arith,
  length, length-drop, Option-cases,
}
use rive_cpp_legacy.Prelude.Int.{ℤ}
use rive_cpp_legacy.Core.Leb.{Decoded, read, short, undefined, decode_uint_leb}
use rive_cpp_legacy.Core.Leb.Bounds.{decode_uint_leb_bounds}
use rive_cpp_legacy.Core.Words.{decode_float, decode_uint_32}
use rive_cpp_legacy.Core.Reader.{
  Reader, reader, ahead, has_error, reached_end, overflow, read_var_uint64, read_string,
  read_float32, read_byte, read_uint32, Width, read_var_uint_as, set_int_range_error,
}

pub record IsValid (r : Reader) : Type 0 where
  pub within : r.position ≤ length r.bytes
  pub spent : has_error r ≡ true → r.position ≡ length r.bytes

-- From `r` to `s` the reader read or failed.
pub record Advances (r s : Reader) : Type 0 where
  pub same : s.bytes ≡ r.bytes
  pub forward : r.position ≤ s.position
  pub moved : (r.position < s.position) ⊎ (reached_end s ≡ true)
  pub sticky : has_error r ≡ true → has_error s ≡ true
  pub valid : IsValid s

pub Decoded-cases :
    (d : Decoded) → (d ≡ short) ⊎ ((d ≡ undefined) ⊎ ((v : ℕ) × (n : ℕ) × (d ≡ read v n)))
Decoded-cases short = inl refl
Decoded-cases undefined = inr (inl refl)
Decoded-cases (read v n) = inr (inr (v, n, refl))

Advances-overflow : (r : Reader) → IsValid r → Advances r (overflow r)
unfolding overflow has_error reached_end
Advances-overflow r v = ground arith

Advances-step :
    (r : Reader) (n : ℕ)
    → IsValid r
    → 0 < n
    → n ≤ length (ahead r)
    → Advances r (record r { position = r.position + n })
unfolding has_error reached_end
Advances-step r n v h k = ground (arith, length-drop r.position r.bytes)

-- More of the buffer is taken, or the read fails, after a first part.
Advances-extend :
    (r s : Reader) (n : ℕ)
    → Advances r s
    → s.position + n ≤ length s.bytes
    → Advances r (record s { position = s.position + n })
unfolding has_error reached_end
Advances-extend r s n v h = ground arith

Advances-fail : (r s : Reader) → Advances r s → Advances r (overflow s)
unfolding overflow has_error reached_end
Advances-fail r s v = ground arith

Advances-range : (r s : Reader) → Advances r s → Advances r (set_int_range_error s)
unfolding set_int_range_error has_error reached_end
Advances-range r s v = ground arith

read_var_uint64-Advances :
    (r s : Reader) (a : ℕ) → IsValid r → read_var_uint64 r ≡ some (a, s) → Advances r s
unfolding read_var_uint64
read_var_uint64-Advances r s a v e = elim (Decoded-cases (decode_uint_leb (ahead r))) [
  | inl d ↦ ground (arith, d, Advances-overflow r v)
  | inr (inl d) ↦ ground (arith, d)
  | inr (inr (x, n, d)) ↦
      let (_, lo, _, hi, _) = decode_uint_leb_bounds (ahead r) [] x n d in
      ground (arith, d, Advances-step r n v lo hi)
]

read_byte-Advances : (r s : Reader) (a : ℕ) → IsValid r → read_byte r ≡ some (a, s) → Advances r s
unfolding read_byte
read_byte-Advances r s a v e = ground (arith, Advances-overflow r v, Advances-step r 1 v)

decode_uint_32_size :
    (big : Bool) (buf : List ℕ) {v : ℕ} → decode_uint_32 big buf ≡ some v → 4 ≤ length buf
unfolding decode_uint_32
decode_uint_32_size big (a ∷ b ∷ c ∷ d ∷ rest) e = omega arith
decode_uint_32_size big _ e = cc

decode_float_size :
    (big : Bool) (buf : List ℕ) {v : ℕ} → decode_float big buf ≡ some v → 4 ≤ length buf
unfolding decode_float
decode_float_size big (a ∷ b ∷ c ∷ d ∷ rest) e = omega arith
decode_float_size big _ e = cc

read_uint32-Advances :
    (big : Bool) (r s : Reader) (a : ℕ) → IsValid r → read_uint32 big r ≡ some (a, s) → Advances r s
unfolding read_uint32
read_uint32-Advances big r s a v e = elim (Option-cases (decode_uint_32 big (ahead r))) [
  | inl d ↦ ground (arith, d, Advances-overflow r v)
  | inr (x, d) ↦
      let size = decode_uint_32_size big (ahead r) d in
      ground (arith, d, Advances-step r 4 v (omega arith) size)
]

read_float32-Advances :
    (big : Bool) (r s : Reader) (a : ℕ)
    → IsValid r
    → read_float32 big r ≡ some (a, s)
    → Advances r s
unfolding read_float32
read_float32-Advances big r s a v e = elim (Option-cases (decode_float big (ahead r))) [
  | inl d ↦ ground (arith, d, Advances-overflow r v)
  | inr (x, d) ↦
      let size = decode_float_size big (ahead r) d in
      ground (arith, d, Advances-step r 4 v (omega arith) size)
]

read_var_uint_as-Advances :
    (T : Width) (r s : Reader) (a : ℤ)
    → IsValid r
    → read_var_uint_as T r ≡ some (a, s)
    → Advances r s
unfolding read_var_uint_as
read_var_uint_as-Advances T r s a v e = elim (Option-cases (read_var_uint64 r)) [
  | inl none' ↦ ground (arith, none')
  | inr ((x, t), d) ↦
      let first = read_var_uint64-Advances r t x v d in
      ground (arith, d, first, Advances-range r t first)
]

read_string-Advances :
    (r s : Reader) (a : List ℕ) → IsValid r → read_string r ≡ some (a, s) → Advances r s
unfolding read_string
read_string-Advances r s a v e = elim (Option-cases (read_var_uint64 r)) [
  | inl none' ↦ ground (arith, none')
  | inr ((x, t), d) ↦
      let first = read_var_uint64-Advances r t x v d in
      ground (arith, d, first, Advances-fail r t first, Advances-extend r t x first)
]

-- The reading calls of the class but `readBytes`, as data.
pub data Call : Type 0 where
  var_uint64 string byte : Call
  float32 uint32 : Bool → Call
  var_uint_as : Width → Call

after {ℓ} : {A : Type ℓ} → Option (A × Reader) → Option Reader
after none = none
after (some (a, r)) = some r

unfoldable pub perform : Call → Reader → Option Reader
unfolding after
perform var_uint64 r = after (read_var_uint64 r)
perform string r = after (read_string r)
perform byte r = after (read_byte r)
perform (float32 big) r = after (read_float32 big r)
perform (uint32 big) r = after (read_uint32 big r)
perform (var_uint_as T) r = after (read_var_uint_as T r)

after_cases {ℓ} :
    {A : Type ℓ} (o : Option (A × Reader)) {s : Reader}
    → after o ≡ some s
    → (a : A) × (o ≡ some (a, s))
unfolding after
after_cases none e = cc
after_cases (some (a, r)) e = (a, ground arith)

-- A reading call other than `readBytes` that returns keeps the reader valid and its buffer as it was, moves the position
-- forward or reports the end, and drops no error.
pub perform-Advances : (c : Call) (r s : Reader) → IsValid r → perform c r ≡ some s → Advances r s
unfolding perform
perform-Advances var_uint64 r s v e =
    let (a, d) = after_cases (read_var_uint64 r) e in read_var_uint64-Advances r s a v d
perform-Advances string r s v e =
    let (a, d) = after_cases (read_string r) e in read_string-Advances r s a v d
perform-Advances byte r s v e =
    let (a, d) = after_cases (read_byte r) e in read_byte-Advances r s a v d
perform-Advances (float32 big) r s v e =
    let (a, d) = after_cases (read_float32 big r) e in read_float32-Advances big r s a v d
perform-Advances (uint32 big) r s v e =
    let (a, d) = after_cases (read_uint32 big r) e in read_uint32-Advances big r s a v d
perform-Advances (var_uint_as T) r s v e =
    let (a, d) = after_cases (read_var_uint_as T r) e in read_var_uint_as-Advances T r s a v d

pub reader-IsValid : (bytes : List ℕ) → IsValid (reader bytes)
unfolding reader has_error
reader-IsValid bytes = record { within = omega arith; spent = λ e. cc }
