-- ===== src/Core/Reader/Behind.antt =====
-- A reader that stands at a value which is wholly in the buffer (src/core/binary_reader.cpp).
use rive_cpp_legacy.Prelude.{
  ℕ, ◌+◌, ◌^◌, ◌<◌, ◌≡◌, refl, sym, ap, ◌∙◌, Bool, false, List, [], ◌∷◌, ◌++◌, some, arith, length,
  take, drop, length-append, drop-append,
}
use mathlib.Core.List.{append_assoc}
use rive_cpp_legacy.Prelude.Int.{pos}
use rive_cpp_legacy.Core.Leb.{write_var_uint, decode_uint_leb}
use rive_cpp_legacy.Core.Words.{decode_float, decode_uint_32}
use rive_cpp_legacy.Core.Reader.{
  Reader, overflow, ahead, decode_string, read_var_uint64, read_string, read_float32, read_uint32,
  Width, read_var_uint_as, as_int, as_uint16, as_uint32,
}
use rive_cpp_legacy.Core.Reader.Varint.{read_var_uint64-write_var_uint, read_var_uint_as_range}

-- The reader behind so many bytes.
abbrev pub behind : List ℕ → List ℕ → Reader
behind bytes front = record {
  bytes = bytes;
  position = length front;
  overflowed = false;
  int_range_error = false;
}

behind-append :
    (all front bytes : List ℕ)
    → behind all (front ++ bytes)
      ≡ record (behind all front) { position = length front + length bytes }
behind-append all front bytes = ground (arith, length-append front bytes)

-- The values below it fit, also if they pass through a signed type.
abbrev pub bound : Width → ℕ
bound as_uint16 = 2 ^ 16
bound as_uint32 = 2 ^ 32
bound as_int = 2 ^ 31

pub read_var_uint_as-write_var_uint :
    (T : Width) (all front bytes back : List ℕ) (value : ℕ)
    → value < bound T
    → write_var_uint value ≡ some bytes
    → all ≡ front ++ (bytes ++ back)
    → read_var_uint_as T (behind all front) ≡ some (pos value, behind all (front ++ bytes))
read_var_uint_as-write_var_uint as_int all front bytes back value h w e =
    read_var_uint_as_range as_int (behind all front) _ value (omega (arith, h)) (
      read_var_uint64-write_var_uint (behind all front) value front back bytes (omega (arith, h)) w
        e refl)
    ∙ ground (arith, behind-append all front bytes, h)
read_var_uint_as-write_var_uint as_uint16 all front bytes back value h w e =
    read_var_uint_as_range as_uint16 (behind all front) _ value (omega (arith, h)) (
      read_var_uint64-write_var_uint (behind all front) value front back bytes (omega (arith, h)) w
        e refl)
    ∙ ground (arith, behind-append all front bytes, h)
read_var_uint_as-write_var_uint as_uint32 all front bytes back value h w e =
    read_var_uint_as_range as_uint32 (behind all front) _ value (omega (arith, h)) (
      read_var_uint64-write_var_uint (behind all front) value front back bytes (omega (arith, h)) w
        e refl)
    ∙ ground (arith, behind-append all front bytes, h)

take-append : (xs ys : List ℕ) → take (length xs) (xs ++ ys) ≡ xs
take-append [] ys = refl
take-append (x ∷ xs) ys = ap (λ zs. x ∷ zs) (take-append xs ys)

-- What stands ahead of the reader behind `front`.
pub ahead-behind : (all front rest : List ℕ) → all ≡ front ++ rest → ahead (behind all front) ≡ rest
ahead-behind all front rest e = rw e (drop-append front rest)

pub read_string-behind :
    (all front bytes text back : List ℕ)
    → length text + 1 < 2 ^ 63
    → write_var_uint (length text) ≡ some bytes
    → all ≡ front ++ ((bytes ++ text) ++ back)
    → read_string (behind all front) ≡ some (text, behind all (front ++ (bytes ++ text)))
unfolding read_string decode_string
read_string-behind all front bytes text back h w e =
    let e1 : all ≡ front ++ (bytes ++ (text ++ back)) =
      e ∙ ap (λ l. front ++ l) (append_assoc bytes text back) in
    let e2 : all ≡ (front ++ bytes) ++ (text ++ back) =
      e1 ∙ sym (append_assoc front bytes (text ++ back)) in
    let one =
      read_var_uint64-write_var_uint (behind all front) (length text) front (text ++ back) bytes
        (omega (arith, h)) w e1 refl in
    let there : read_var_uint64 (behind all front)
        ≡ some (length text, behind all (front ++ bytes)) =
      one ∙ ap (λ t. some (length text, t)) (sym (behind-append all front bytes)) in
    let text_there = ahead-behind all (front ++ bytes) (text ++ back) e2 in
    let size = ap length e2 ∙ length-append (front ++ bytes) (text ++ back) in
    ground (
      arith,
      there,
      text_there,
      size,
      take-append text back,
      length-append text back,
      length-append front (bytes ++ text),
      length-append front bytes,
      length-append bytes text,
    )

float_there :
    (big : Bool) (b0 b1 b2 b3 : ℕ) (back : List ℕ)
    → (v : ℕ) × (decode_float big (b0 ∷ b1 ∷ b2 ∷ b3 ∷ back) ≡ some v)
unfolding decode_float
float_there big b0 b1 b2 b3 back = (_, refl)

uint32_there :
    (big : Bool) (b0 b1 b2 b3 : ℕ) (back : List ℕ)
    → (v : ℕ) × (decode_uint_32 big (b0 ∷ b1 ∷ b2 ∷ b3 ∷ back) ≡ some v)
unfolding decode_uint_32
uint32_there big b0 b1 b2 b3 back = (_, refl)

pub read_float32-behind :
    (big : Bool) (all front back : List ℕ) (b0 b1 b2 b3 : ℕ)
    → all ≡ front ++ (b0 ∷ b1 ∷ b2 ∷ b3 ∷ back)
    → (v : ℕ) × (read_float32 big (behind all front)
        ≡ some (v, behind all (front ++ (b0 ∷ b1 ∷ b2 ∷ b3 ∷ []))))
unfolding read_float32
read_float32-behind big all front back b0 b1 b2 b3 e =
    let (v, there) = float_there big b0 b1 b2 b3 back in
    let here = ap (decode_float big) (ahead-behind all front (b0 ∷ b1 ∷ b2 ∷ b3 ∷ back) e) in
    (v, ground (arith, here, there, behind-append all front (b0 ∷ b1 ∷ b2 ∷ b3 ∷ [])))

pub read_uint32-behind :
    (big : Bool) (all front back : List ℕ) (b0 b1 b2 b3 : ℕ)
    → all ≡ front ++ (b0 ∷ b1 ∷ b2 ∷ b3 ∷ back)
    → (v : ℕ) × (read_uint32 big (behind all front)
        ≡ some (v, behind all (front ++ (b0 ∷ b1 ∷ b2 ∷ b3 ∷ []))))
unfolding read_uint32
read_uint32-behind big all front back b0 b1 b2 b3 e =
    let (v, there) = uint32_there big b0 b1 b2 b3 back in
    let here = ap (decode_uint_32 big) (ahead-behind all front (b0 ∷ b1 ∷ b2 ∷ b3 ∷ back) e) in
    (v, ground (arith, here, there, behind-append all front (b0 ∷ b1 ∷ b2 ∷ b3 ∷ [])))

drop-length : (xs : List ℕ) → drop (length xs) xs ≡ []
drop-length [] = refl
drop-length (x ∷ xs) = drop-length xs

read_var_uint64_end :
    (all : List ℕ) → read_var_uint64 (behind all all) ≡ some (0, overflow (behind all all))
unfolding read_var_uint64 decode_uint_leb
read_var_uint64_end all = rw (drop-length all, read_var_uint64) refl

-- At the end of the buffer 0 is read, with the overflow error.
pub read_var_uint_as_end :
    (T : Width) (all : List ℕ)
    → read_var_uint_as T (behind all all) ≡ some (pos 0, overflow (behind all all))
read_var_uint_as_end as_uint16 all =
    read_var_uint_as_range as_uint16 (behind all all) (overflow (behind all all)) 0 (omega arith)
      (read_var_uint64_end all)
read_var_uint_as_end as_uint32 all =
    read_var_uint_as_range as_uint32 (behind all all) (overflow (behind all all)) 0 (omega arith)
      (read_var_uint64_end all)
read_var_uint_as_end as_int all =
    read_var_uint_as_range as_int (behind all all) (overflow (behind all all)) 0 (omega arith)
      (read_var_uint64_end all)
