-- ===== src/Importers/Header.antt =====
-- RuntimeHeader::read (include/rive/runtime_header.hpp) over BinaryReader.
pub mod Ends
pub mod Leads
pub mod Keeps
pub mod Cut
use rive_cpp_legacy.Prelude.{
  ℕ, zero, suc, ◌+◌, ◌/◌, ◌%◌, ◌^◌, Bool, true, false, not, List, [], ◌∷◌, ◌++◌, Option, none, some,
  ◌==◌, if◌then◌else◌,
}
use rive_cpp_legacy.Prelude.Int.{ℤ, pos, negsuc}
use rive_cpp_legacy.Core.Reader.{Reader, read_byte, read_uint32, read_var_uint_as, as_int}

-- m_PropertyToFieldIndex holds the newest assignment first.
pub record Header : Type 0 where
  pub major_version : ℤ
  pub minor_version : ℤ
  pub file_id : ℤ
  pub property_to_field_index : List (ℤ × ℕ)

-- What a call does: its fuel runs out, it meets undefined behaviour or throws, or it returns.
pub data Result (A : Type 0) : Type 0 where
  exhausted : Result A
  undefined : Result A
  done : A → Reader → Result A

unfoldable pub and_then : {A B : Type 0} → Result A → (A → Reader → Result B) → Result B
and_then exhausted next = exhausted
and_then undefined next = undefined
and_then (done a r) next = next a r

unfoldable pub returned : {A : Type 0} → Option (A × Reader) → Result A
returned none = undefined
returned (some (a, r)) = done a r

abbrev pub fingerprint : List ℕ
fingerprint = 0x52 ∷ 0x49 ∷ 0x56 ∷ 0x45 ∷ []

unfoldable pub fingerprint_loop : List ℕ → Reader → Result Bool
unfolding and_then returned
fingerprint_loop [] r = done true r
fingerprint_loop (c ∷ cs) r =
    and_then (returned (read_byte r))
      (λ b s. let rest = fingerprint_loop cs s in if c == b then rest else done false s)

abbrev pub is_zero : ℤ → Bool
is_zero (pos n) = n == 0
is_zero (negsuc n) = false

-- The loop that reads the keys: `none` is its `return false`.
unfoldable pub key_loop : ℕ → List ℤ → Reader → Result (Option (List ℤ))
unfolding and_then returned
key_loop zero keys r = exhausted
key_loop (suc fuel) keys r = and_then (returned (read_var_uint_as as_int r)) (λ key s.
    let rest = key_loop fuel (keys ++ key ∷ []) s in
    if is_zero key then done (some keys) s else if s.overflowed then done none s else rest)

-- The field indices, two bits each, of which the code takes four from each word. A word has 32
-- bits, and `int` holds it with its lowest bits as they are.
abbrev pub fetched : Bool → ℕ → ℕ → Reader → Result (ℕ × ℕ)
fetched big current_int current_bit r =
    if current_bit == 8
    then and_then (returned (read_uint32 big r)) (λ word s. done (word, 0) s)
    else done (current_int, current_bit) r

unfoldable pub field_loop : Bool → List ℤ → ℕ → ℕ → Header → Reader → Result (Bool × Header)
unfolding and_then returned
field_loop big [] current_int current_bit h r = done (true, h) r
field_loop big (key ∷ keys) current_int current_bit h r =
    and_then (fetched big current_int current_bit r) (λ (word, bit) s.
      let index = word / 2 ^ bit % 4 in
      let h' = record h { property_to_field_index = (key, index) ∷ h.property_to_field_index } in
      let rest = field_loop big keys word (bit + 2) h' s in
      if s.overflowed then done (false, h') s else rest)

-- One `int` of the header and the check behind it.
abbrev pub version :
    (ℤ → Header → Header)
    → (Header → Reader → Result (Bool × Header))
    → Header
    → Reader
    → Result (Bool × Header)
version put next h r =
    and_then (returned (read_var_uint_as as_int r))
      (λ value s. if s.overflowed then done (false, put value h) s else next (put value h) s)

abbrev pub read_fields : Bool → ℕ → Header → Reader → Result (Bool × Header)
read_fields big fuel h r =
    and_then (key_loop fuel [] r)
      (λ found s. elim found [ none ↦ done (false, h) s | some keys ↦ field_loop big keys 0 8 h s ])

unfoldable pub read : Bool → ℕ → Header → Reader → Result (Bool × Header)
unfolding and_then returned fingerprint_loop key_loop field_loop
read big fuel h r = and_then (fingerprint_loop fingerprint r) (λ same s.
    if not same
    then done (false, h) s
    else version (λ v k. record k { major_version = v })
        (version (λ v k. record k { minor_version = v })
          (version (λ v k. record k { file_id = v }) (read_fields big fuel)))
        h s)
