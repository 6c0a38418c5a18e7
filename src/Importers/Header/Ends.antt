-- ===== src/Importers/Header/Ends.antt =====
-- RuntimeHeader::read (include/rive/runtime_header.hpp) ends on every buffer.
use rive_cpp_legacy.Prelude.{
  ℕ, zero, suc, ◌+◌, ◌-◌, ◌/◌, ◌%◌, ◌^◌, ◌<◌, ◌≡◌, ◌≢◌, refl, ◌∙◌, inl, inr, Bool, true, false, not,
  List, [], ◌∷◌, ◌++◌, Option, none, some, ◌==◌, if◌then◌else◌, arith, Option-cases, length,
  length-drop,
}
use rive_cpp_legacy.Prelude.Int.{ℤ}
use rive_cpp_legacy.Core.Leb.{decode_uint_leb}
use rive_cpp_legacy.Core.Leb.Bounds.{decode_uint_leb_bounds}
use rive_cpp_legacy.Core.Reader.{Reader, ahead, read_byte, read_uint32, read_var_uint_as, as_int}
use rive_cpp_legacy.Core.Reader.Valid.{Decoded-cases}
use rive_cpp_legacy.Importers.Header.{
  Header, Result, exhausted, undefined, done, and_then, returned, fingerprint, fingerprint_loop,
  is_zero, key_loop, fetched, field_loop, version, read_fields, read,
}

-- A key other than 0 took at least one byte of the buffer.
key_moves :
    (r s : Reader) (key : ℤ)
    → read_var_uint_as as_int r ≡ some (key, s)
    → is_zero key ≡ false
    → (s.bytes ≡ r.bytes) × (length s.bytes - s.position < length r.bytes - r.position)
unfolding read_var_uint_as
key_moves r s key e nonzero = elim (Decoded-cases (decode_uint_leb (ahead r))) [
  | inl d ↦ ground (arith, d)
  | inr (inl d) ↦ ground (arith, d)
  | inr (inr (x, n, d)) ↦
      let (_, lo, _, hi, _) = decode_uint_leb_bounds (ahead r) [] x n d in
      ground (arith, d, lo, hi, length-drop r.position r.bytes)
]

done_exhausted : {A : Type 0} (a : A) (r : Reader) → done a r ≢ exhausted
done_exhausted a r e = cc

-- The call returns, throws or meets undefined behaviour.
abbrev pub Ends : {A : Type 0} → Result A → Type 0
Ends m = m ≢ exhausted

undefined_exhausted : {A : Type 0} → Ends {A = A} undefined
undefined_exhausted e = cc

and_then-Ends :
    {A B : Type 0} (o : Option (A × Reader)) (next : A → Reader → Result B)
    → ((a : A) (s : Reader) → o ≡ some (a, s) → Ends (next a s))
    → Ends (and_then (returned o) next)
unfolding and_then returned
and_then-Ends none next ends = undefined_exhausted
and_then-Ends (some (a, s)) next ends = ends a s refl

read_var_uint_as_same :
    (r s : Reader) (key : ℤ) → read_var_uint_as as_int r ≡ some (key, s) → s.bytes ≡ r.bytes
unfolding read_var_uint_as
read_var_uint_as_same r s key e = elim (Decoded-cases (decode_uint_leb (ahead r))) [
  | inl d ↦ ground (arith, d)
  | inr (inl d) ↦ ground (arith, d)
  | inr (inr (x, n, d)) ↦ ground (arith, d)
]

-- Where what comes next ends whatever it is given.
followed-Ends :
    {A B : Type 0} (m : Result A) (next : A → Reader → Result B)
    → Ends m
    → ((a : A) (s : Reader) → Ends (next a s))
    → Ends (and_then m next)
unfolding and_then
followed-Ends exhausted next h ends = absurd (h refl)
followed-Ends undefined next h ends = undefined_exhausted
followed-Ends (done a s) next h ends = ends a s

read_byte_same : (r s : Reader) (b : ℕ) → read_byte r ≡ some (b, s) → s.bytes ≡ r.bytes
unfolding read_byte
read_byte_same r s b e = ground arith

pick-Ends :
    {A : Type 0} (b : Bool) (x y : Result A)
    → (b ≡ true → Ends x)
    → (b ≡ false → Ends y)
    → Ends (if b then x else y)
pick-Ends true x y p q = p refl
pick-Ends false x y p q = q refl

key_loop-Ends :
    (fuel : ℕ) (keys : List ℤ) (r : Reader)
    → length r.bytes - r.position < fuel
    → Ends (key_loop fuel keys r)
unfolding key_loop
key_loop-Ends zero keys r h = elim h [ ]
key_loop-Ends (suc fuel) keys r h = and_then-Ends (read_var_uint_as as_int r) _ (λ key s e.
    pick-Ends (is_zero key) _ _ (λ z. done_exhausted _ s)
      (λ nonzero.
        pick-Ends s.overflowed _ _ (λ o. done_exhausted _ s)
          (λ o. key_loop-Ends fuel (keys ++ key ∷ []) s (shorter s key e nonzero))))
  where
    shorter :
        (s : Reader) (key : ℤ)
        → read_var_uint_as as_int r ≡ some (key, s)
        → is_zero key ≡ false
        → length s.bytes - s.position < fuel
    shorter s key e nonzero =
        let (same, less) = key_moves r s key e nonzero in omega (arith, less, h)

fetched-Ends :
    (big : Bool) (current_int current_bit : ℕ) (r : Reader)
    → Ends (fetched big current_int current_bit r)
fetched-Ends big current_int current_bit r =
    pick-Ends (current_bit == 8) _ _
      (λ full.
        and_then-Ends (read_uint32 big r) (λ word s. done (word, 0) s)
          (λ word s e. done_exhausted (word, 0) s))
      (λ more. done_exhausted (current_int, current_bit) r)

field_loop-Ends :
    (big : Bool) (keys : List ℤ) (current_int current_bit : ℕ) (h : Header) (r : Reader)
    → Ends (field_loop big keys current_int current_bit h r)
unfolding field_loop
field_loop-Ends big [] current_int current_bit h r = done_exhausted _ r
field_loop-Ends big (key ∷ keys) current_int current_bit h r =
    followed-Ends (fetched big current_int current_bit r) _
      (fetched-Ends big current_int current_bit r)
      (λ (word, bit) s.
        pick-Ends s.overflowed _ _ (λ o. done_exhausted _ s)
          (λ o.
            field_loop-Ends big keys word (bit + 2)
              (record h {
                property_to_field_index = (key, word / 2 ^ bit % 4) ∷ h.property_to_field_index;
              })
              s))

fingerprint-Ends :
    {B : Type 0} (cs : List ℕ) (r : Reader) (next : Bool → Reader → Result B)
    → ((same : Bool) (s : Reader) → s.bytes ≡ r.bytes → Ends (next same s))
    → Ends (and_then (fingerprint_loop cs r) next)
unfolding fingerprint_loop and_then returned
fingerprint-Ends [] r next ends = ends true r refl
fingerprint-Ends (c ∷ cs) r next ends = elim (Option-cases (read_byte r)) [
  | inl e ↦ rw e undefined_exhausted
  | inr ((b, s), e) ↦
      let kept = read_byte_same r s b e in
      rw e (step (c == b) s kept (fingerprint-Ends cs s next (λ same t h. ends same t (h ∙ kept))))
]
  where
    step :
        (b : Bool) (s : Reader)
        → s.bytes ≡ r.bytes
        → Ends (and_then (fingerprint_loop cs s) next)
        → Ends (and_then (if b then fingerprint_loop cs s else done false s) next)
    step true s kept h = h
    step false s kept h = ends false s kept

version-Ends :
    (put : ℤ → Header → Header) (next : Header → Reader → Result (Bool × Header)) (h : Header)
    (r : Reader)
    → ((k : Header) (s : Reader) → s.bytes ≡ r.bytes → Ends (next k s))
    → Ends (version put next h r)
version-Ends put next h r ends = and_then-Ends (read_var_uint_as as_int r) _ (λ value s e.
    pick-Ends s.overflowed _ _ (λ o. done_exhausted _ s)
      (λ o. ends (put value h) s (read_var_uint_as_same r s value e)))

read_fields-Ends :
    (big : Bool) (fuel : ℕ) (h : Header) (r : Reader)
    → length r.bytes < fuel
    → Ends (read_fields big fuel h r)
read_fields-Ends big fuel h r enough =
    followed-Ends (key_loop fuel [] r) _ (key_loop-Ends fuel [] r (omega (arith, enough)))
      (λ found s. keys_found found s)
  where
    keys_found :
        (found : Option (List ℤ)) (s : Reader)
        → Ends {A = Bool × Header}
            (elim found [ none ↦ done (false, h) s | some keys ↦ field_loop big keys 0 8 h s ])
    keys_found none s = done_exhausted _ s
    keys_found (some keys) s = field_loop-Ends big keys 0 8 h s

-- On every buffer RuntimeHeader::read returns, throws or meets undefined behaviour, before its loop over the
-- property keys has run more often than there are bytes.
pub read-Ends :
    (big : Bool) (fuel : ℕ) (h : Header) (r : Reader)
    → length r.bytes < fuel
    → Ends (read big fuel h r)
unfolding read
read-Ends big fuel h r enough = fingerprint-Ends fingerprint r _ (λ same s e. matched same s e)
  where
    bytes_kept : (s : Reader) → s.bytes ≡ r.bytes → length s.bytes < fuel
    bytes_kept s e = rw e enough

    matched :
        (same : Bool) (s : Reader)
        → s.bytes ≡ r.bytes
        → Ends {A = Bool × Header} (
            if not same
            then done (false, h) s
            else version
                (λ v k. record k { major_version = v })
                (version
                  (λ v k. record k { minor_version = v })
                  (version (λ v k. record k { file_id = v }) (read_fields big fuel)))
                h
                s)
    matched false s e = done_exhausted _ s
    matched true s e =
        version-Ends (λ v k. record k { major_version = v }) _ h s
          (λ k1 s1 e1.
            version-Ends (λ v k. record k { minor_version = v }) _ k1 s1
              (λ k2 s2 e2.
                version-Ends (λ v k. record k { file_id = v }) _ k2 s2
                  (λ k3 s3 e3. read_fields-Ends big fuel k3 s3 (bytes_kept s3 (e3 ∙ e2 ∙ e1 ∙ e)))))
