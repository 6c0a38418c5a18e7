-- ===== src/Core/Writer/Appends.antt =====
-- Where the written bytes go.
use mathlib.Core.Option
use mathlib.Core.Option.{some-injective}
use mathlib.Core.List.{append-nil}
use rive_cpp_legacy.Prelude.{
  ℕ, zero, suc, ◌+◌, ◌-◌, ◌≤◌, ◌≡◌, refl, ap, Bool, List, [], ◌∷◌, ◌++◌, some, arith, length, take,
  drop, replicate, length-append, length-take, length-replicate, length-drop, dec_lt, lt→ltb,
}
use rive_cpp_legacy.Core.Writer.{
  Writer, writer, stream_write, Item, put, encode, overwrite, raw, buffer,
}

take-append_le {ℓ} :
    {A : Type ℓ} (n : ℕ) (xs ys : List A) → n ≤ length xs → take n (xs ++ ys) ≡ take n xs
take-append_le zero xs ys h = refl
take-append_le (suc n) [] ys h = absurd (omega arith)
take-append_le (suc n) (x ∷ xs) ys h = ap (λ t. x ∷ t) (take-append_le n xs ys (omega arith))

take-append {ℓ} : {A : Type ℓ} (xs ys : List A) → take (length xs) (xs ++ ys) ≡ xs
take-append [] ys = refl
take-append (x ∷ xs) ys = ap (λ t. x ∷ t) (take-append xs ys)

-- What was written so far, and that it lies in the vector.
abbrev pub written : Writer → List ℕ
written w = take w.pos w.write_buffer

abbrev pub IsValid : Writer → Type 0
IsValid w = w.pos ≤ length w.write_buffer

overwrite_taken :
    (xs bytes : List ℕ) (at : ℕ)
    → at ≤ length xs
    → take (at + length bytes) (overwrite xs at bytes) ≡ take at xs ++ bytes
unfolding overwrite
overwrite_taken xs bytes zero h =
    let e : 0 + length bytes ≡ length bytes = omega arith in
    rw e (take-append bytes (drop (length bytes) xs))
overwrite_taken [] bytes (suc at) h = absurd (omega arith)
overwrite_taken (x ∷ xs) bytes (suc at) h =
    let e : suc at + length bytes ≡ suc (at + length bytes) = omega arith in
    rw e (ap (λ t. x ∷ t) (overwrite_taken xs bytes at (omega arith)))

length-overwrite :
    (xs bytes : List ℕ) (at : ℕ)
    → at + length bytes ≤ length xs
    → length (overwrite xs at bytes) ≡ length xs
unfolding overwrite
length-overwrite xs bytes at h = omega (
  arith,
  length-append (take at xs) (bytes ++ drop (at + length bytes) xs),
  length-append bytes (drop (at + length bytes) xs),
  length-take at xs,
  length-drop (at + length bytes) xs,
)

stream_write-Appends :
    (bytes : List ℕ) (w : Writer)
    → IsValid w
    → IsValid (stream_write bytes w) × (written (stream_write bytes w) ≡ written w ++ bytes)
unfolding stream_write
stream_write-Appends bytes w v = elim (dec_lt (length w.write_buffer) (w.pos + length bytes)) [
  | yes p ↦
      let more = replicate (w.pos + length bytes - length w.write_buffer) 0 in
      let size = length-append w.write_buffer more in
      let size' = length-replicate {A = ℕ} (w.pos + length bytes - length w.write_buffer) 0 in
      let big = lt→ltb _ _ p in
      ground (
        arith,
        big,
        size,
        size',
        length-overwrite (w.write_buffer ++ more) bytes w.pos (omega arith),
        overwrite_taken (w.write_buffer ++ more) bytes w.pos (omega arith),
        take-append_le w.pos w.write_buffer more v,
      )
  | no p ↦ ground (
    arith,
    length-overwrite w.write_buffer bytes w.pos (omega arith),
    overwrite_taken w.write_buffer bytes w.pos (omega arith),
  )
]

-- Each call puts its bytes behind those written so far, growing the vector where they do not fit,
-- and changes none of the earlier ones.
put-Appends :
    (big : Bool) (item : Item) (w : Writer) (bytes : List ℕ)
    → IsValid w
    → encode big item ≡ some bytes
    → (t : Writer) × (put big item w ≡ some t) × IsValid t × (written t ≡ written w ++ bytes)
unfolding put
put-Appends big (raw []) w bytes v e = (w, refl, v, ground (arith, append-nil (written w)))
put-Appends big (raw (b ∷ bs)) w bytes v e =
    let (ok, grows) = stream_write-Appends (b ∷ bs) w v in
    (stream_write (b ∷ bs) w, ground arith, ok, ground (arith, grows))
put-Appends big item w bytes v e =
    let (ok, grows) = stream_write-Appends bytes w v in
    (stream_write bytes w, ap (Option.map (λ b. stream_write b w)) e, ok, grows)

drop_all {ℓ} : {A : Type ℓ} (n : ℕ) (xs : List A) → length xs ≤ n → drop n xs ≡ []
drop_all zero [] h = refl
drop_all zero (x ∷ xs) h = absurd (omega arith)
drop_all (suc n) [] h = refl
drop_all (suc n) (x ∷ xs) h = drop_all n xs (omega arith)

overwrite_all : (xs bytes : List ℕ) → length xs ≤ length bytes → overwrite xs 0 bytes ≡ bytes
unfolding overwrite
overwrite_all xs bytes h = rw (drop_all (0 + length bytes) xs (omega arith)) (append-nil bytes)

-- A writer over a vector that already holds bytes starts at its beginning, not behind it: a first
-- write of no fewer bytes than the vector held replaces all of them, and `buffer()`, which begins
-- behind those, misses as many of the written bytes as the vector held.
pub stream_write_over_old :
    (old bytes : List ℕ)
    → length old ≤ length bytes
    → ((stream_write bytes (writer old)).write_buffer ≡ bytes)
      × (buffer (stream_write bytes (writer old)) ≡ drop (length old) bytes)
unfolding writer buffer stream_write
stream_write_over_old old bytes h = (whole, ap (drop (length old)) whole)
  where
    whole : (stream_write bytes (writer old)).write_buffer ≡ bytes
    whole = elim (dec_lt (length old) (0 + length bytes)) [
      | yes p ↦
          let n = length-append old (replicate (0 + length bytes - length old) 0) in
          let m = length-replicate {A = ℕ} (0 + length bytes - length old) 0 in
          ground (
            arith,
            overwrite_all (old ++ replicate (0 + length bytes - length old) 0) bytes (omega arith),
          )
      | no p ↦ ground (arith, overwrite_all old bytes h)
    ]
