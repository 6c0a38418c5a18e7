-- ===== src/Importers/Header/Keeps.antt =====
-- RuntimeHeader::read (include/rive/runtime_header.hpp) only moves the reader on.
use rive_cpp_legacy.Prelude.{
  ℕ, zero, suc, ◌+◌, ◌/◌, ◌%◌, ◌^◌, Bool, false, not, List, [], ◌∷◌, ◌++◌, Option, none, some, ◌==◌,
}
use rive_cpp_legacy.Prelude.Int.{ℤ}
use rive_cpp_legacy.Core.Reader.{Reader, read_byte, read_uint32, read_var_uint_as, as_int}
use rive_cpp_legacy.Core.Reader.Keeps.{
  IsSpent, Keeps, Keeps-refl, Keeps-trans, read_var_uint_as-Takes, read_uint32-Keeps,
  read_byte-Keeps,
}
use rive_cpp_legacy.Importers.Header.{
  Header, Result, done, and_then, returned, fingerprint, fingerprint_loop, is_zero, key_loop,
  fetched, field_loop, version, read_fields, read,
}
use rive_cpp_legacy.Importers.Header.Leads.{
  Leads, and_then-Leads, returned-Leads, if-Leads, weaker-Leads,
}

abbrev Kept : {A : Type 0} → Reader → Result A → Type 0
Kept r m = Leads Unit (λ a s. Keeps r s) m

-- One call after another.
then_Kept :
    {A B : Type 0} (r : Reader) (m : Result A) (next : A → Reader → Result B)
    → Kept r m
    → ((a : A) (s : Reader) → IsSpent s → Kept s (next a s))
    → Kept r (and_then m next)
then_Kept r m next h k =
    and_then-Leads Unit (λ a s. Keeps r s) (λ a s. Keeps r s) m next h
      (λ a s first.
        weaker-Leads Unit (λ b t. Keeps s t) (λ b t. Keeps r t) (next a s) (k a s first.spent)
          (λ b t second. Keeps-trans r s t first second))

read_int_Kept : (r : Reader) → IsSpent r → Kept r (returned (read_var_uint_as as_int r))
read_int_Kept r h =
    returned-Leads Unit _ (read_var_uint_as as_int r)
      (λ v s e. (read_var_uint_as-Takes as_int r s v h e).0.0)

fingerprint_loop-Kept : (cs : List ℕ) (r : Reader) → IsSpent r → Kept r (fingerprint_loop cs r)
unfolding fingerprint_loop
fingerprint_loop-Kept [] r h = Keeps-refl r h
fingerprint_loop-Kept (c ∷ cs) r h =
    then_Kept r (returned (read_byte r)) _
      (returned-Leads Unit _ (read_byte r) (λ v s e. read_byte-Keeps r s v h e))
      (λ b s k.
        if-Leads Unit _ (c == b) _ _ (λ e. fingerprint_loop-Kept cs s k) (λ e. Keeps-refl s k))

key_loop-Kept : (fuel : ℕ) (keys : List ℤ) (r : Reader) → IsSpent r → Kept r (key_loop fuel keys r)
unfolding key_loop
key_loop-Kept zero keys r h = tt
key_loop-Kept (suc fuel) keys r h =
    then_Kept r (returned (read_var_uint_as as_int r)) _ (read_int_Kept r h) (λ key s k.
      if-Leads Unit _ (is_zero key) _ _ (λ e. Keeps-refl s k)
        (λ e.
          if-Leads Unit _ s.overflowed _ _ (λ o. Keeps-refl s k)
            (λ o. key_loop-Kept fuel (keys ++ key ∷ []) s k)))

fetched-Kept :
    (big : Bool) (current_int current_bit : ℕ) (r : Reader)
    → IsSpent r
    → Kept r (fetched big current_int current_bit r)
fetched-Kept big current_int current_bit r h =
    if-Leads Unit _ (current_bit == 8) _ _
      (λ full.
        then_Kept r (returned (read_uint32 big r)) (λ word s. done (word, 0) s)
          (returned-Leads Unit _ (read_uint32 big r) (λ v s e. read_uint32-Keeps big r s v h e))
          (λ word s k. Keeps-refl s k))
      (λ more. Keeps-refl r h)

field_loop-Kept :
    (big : Bool) (keys : List ℤ) (current_int current_bit : ℕ) (h : Header) (r : Reader)
    → IsSpent r
    → Kept r (field_loop big keys current_int current_bit h r)
unfolding field_loop
field_loop-Kept big [] current_int current_bit h r k = Keeps-refl r k
field_loop-Kept big (key ∷ keys) current_int current_bit h r k =
    then_Kept r (fetched big current_int current_bit r) _
      (fetched-Kept big current_int current_bit r k)
      (λ (word, bit) s k'.
        if-Leads Unit _ s.overflowed _ _ (λ o. Keeps-refl s k')
          (λ o.
            field_loop-Kept big keys word (bit + 2)
              (record h {
                property_to_field_index = (key, word / 2 ^ bit % 4) ∷ h.property_to_field_index;
              })
              s k'))

version-Kept :
    (put : ℤ → Header → Header) (next : Header → Reader → Result (Bool × Header)) (h : Header)
    (r : Reader)
    → IsSpent r
    → ((k : Header) (s : Reader) → IsSpent s → Kept s (next k s))
    → Kept r (version put next h r)
version-Kept put next h r k kept =
    then_Kept r (returned (read_var_uint_as as_int r)) _ (read_int_Kept r k) (λ value s k'.
      if-Leads Unit _ s.overflowed _ _ (λ o. Keeps-refl s k') (λ o. kept (put value h) s k'))

read_fields-Kept :
    (big : Bool) (fuel : ℕ) (h : Header) (r : Reader)
    → IsSpent r
    → Kept r (read_fields big fuel h r)
read_fields-Kept big fuel h r k =
    then_Kept r (key_loop fuel [] r) _ (key_loop-Kept fuel [] r k)
      (λ found s k'. keys_found found s k')
  where
    keys_found :
        (found : Option (List ℤ)) (s : Reader)
        → IsSpent s
        → Kept {A = Bool × Header} s
            (elim found [ none ↦ done (false, h) s | some keys ↦ field_loop big keys 0 8 h s ])
    keys_found none s k' = Keeps-refl s k'
    keys_found (some keys) s k' = field_loop-Kept big keys 0 8 h s k'

pub read-Kept :
    (big : Bool) (fuel : ℕ) (h : Header) (r : Reader)
    → IsSpent r
    → Leads Unit (λ a s. Keeps r s) (read big fuel h r)
unfolding read
read-Kept big fuel h r k =
    then_Kept r (fingerprint_loop fingerprint r) _ (fingerprint_loop-Kept fingerprint r k)
      (λ same s k'.
        if-Leads Unit _ (not same) _ _ (λ e. Keeps-refl s k')
          (λ e.
            version-Kept (λ v t. record t { major_version = v }) _ h s k'
              (λ h1 s1 k1.
                version-Kept (λ v t. record t { minor_version = v }) _ h1 s1 k1
                  (λ h2 s2 k2.
                    version-Kept (λ v t. record t { file_id = v }) _ h2 s2 k2
                      (λ h3 s3 k3. read_fields-Kept big fuel h3 s3 k3)))))
