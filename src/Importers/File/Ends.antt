-- ===== src/Importers/File/Ends.antt =====
-- File::import (src/file.cpp) ends on every buffer.
use rive_cpp_legacy.Prelude.{
  ℕ, zero, suc, ◌+◌, ◌<◌, ◌≡◌, ◌∙◌, ◌⊎◌, inl, inr, Bool, true, false, not, List, Option, none, some,
  arith, length,
}
use rive_cpp_legacy.Prelude.Int.{ℤ, pos}
use rive_cpp_legacy.Core.Reader.{
  Reader, reader, has_error, reached_end, read_var_uint_as, as_int, as_uint16,
}
use rive_cpp_legacy.Core.Reader.Keeps.{
  left, IsSpent, Keeps, Takes, Keeps-refl, Keeps-trans, read_var_uint_as-Takes,
}
use rive_cpp_legacy.Importers.Header.{
  Header, Result, undefined, done, and_then, returned, is_zero, read,
}
use rive_cpp_legacy.Importers.Header.Ends.{Ends, read-Ends}
use rive_cpp_legacy.Importers.Header.Keeps.{read-Kept}
use rive_cpp_legacy.Importers.Header.Leads.{
  Leads, and_then-Leads, returned-Leads, if-Leads, weaker-Leads, Ends-Leads, Leads-Ends,
}
use rive_cpp_legacy.Importers.Stack.{Objects, is_ok, resolve}
use rive_cpp_legacy.Importers.File.{
  Runtime, skip_field, field_of, skip_property, read_property, property_loop, read_runtime_object,
}
use rive_cpp_legacy.Importers.File.Keeps.{skip_field-Keeps}
use rive_cpp_legacy.Importers.File.Read.{
  Import, Outcome, undefined_there, fails, goes_on, set_world, handle, read_loop, read_file,
  new_import, is_major, if_success, import_file,
}

-- On this buffer the generated `deserialize` gives no bytes back and clears no error. It reads with
-- the calls of BinaryReader, of which only `readBytes` could give bytes back: where a number near
-- 2 ^ 64 is announced, with which the position wraps.
abbrev pub OnlyReads : {World : Type 0} → Runtime World → List ℕ → Type 0
OnlyReads {World} runtime bytes =
    (object : ℕ) (key : ℤ) (w w' : World) (b : Bool) (r s : Reader)
    → r.bytes ≡ bytes
    → IsSpent r
    → runtime.deserialize object key w r ≡ some ((b, w'), s)
    → Keeps r s

module _ {World : Type 0} (runtime : Runtime World) (bytes : List ℕ)
    (only : OnlyReads runtime bytes) (big : Bool) (header : Header) where
  skip_property-Keeps :
      (id : Option ℕ) (w : World) (r : Reader)
      → IsSpent r
      → Leads ⊥ (λ a s. Keeps r s) (skip_property runtime big header id w r)
  unfolding skip_property
  skip_property-Keeps none w r h = Keeps-refl r h
  skip_property-Keeps (some id) w r h =
      and_then-Leads ⊥ (λ u s. Keeps r s) _ (returned (skip_field big id r)) _
        (returned-Leads ⊥ _ (skip_field big id r) (λ u s e. skip_field-Keeps big id r s u h e))
        (λ u s k. k)

  read_property-Keeps :
      (object : Option ℕ) (key : ℤ) (w : World) (r : Reader)
      → r.bytes ≡ bytes
      → IsSpent r
      → Leads ⊥ (λ a s. Keeps r s) (read_property runtime big header object key w r)
  unfolding read_property
  read_property-Keeps none key w r same h =
      skip_property-Keeps (field_of runtime big header key) w r h
  read_property-Keeps (some object) key w r same h =
      and_then-Leads ⊥ (λ a s. Keeps r s) _ (returned (runtime.deserialize object key w r)) _
        (returned-Leads ⊥ _ (runtime.deserialize object key w r)
          (λ (b, w') s e. only object key w w' b r s same h e))
        (λ (known, w') s k.
          if-Leads ⊥ _ known _ _ (λ e. k)
            (λ e.
              weaker-Leads ⊥ (λ b t. Keeps s t) (λ b t. Keeps r t)
                (skip_property runtime big header (field_of runtime big header key) w' s)
                (skip_property-Keeps (field_of runtime big header key) w' s k.spent)
                (λ b t k'. Keeps-trans r s t k k')))

  -- A key other than 0 took at least one byte.
  property_loop-Keeps :
      (fuel : ℕ) (object : Option ℕ) (w : World) (r : Reader)
      → r.bytes ≡ bytes
      → IsSpent r
      → left r < fuel
      → Leads ⊥ (λ a s. Keeps r s) (property_loop runtime big header fuel object w r)
  unfolding property_loop
  property_loop-Keeps zero object w r same h enough = elim enough [ ]
  property_loop-Keeps (suc fuel) object w r same h enough =
      and_then-Leads ⊥ (λ key s. Takes r s × (has_error s ≡ true → key ≡ pos 0)) _
        (returned (read_var_uint_as as_uint16 r)) _
        (returned-Leads ⊥ _ (read_var_uint_as as_uint16 r)
          (λ key s e. read_var_uint_as-Takes as_uint16 r s key h e))
        (λ key s (takes, failed).
          if-Leads ⊥ _ (is_zero key) _ _ (λ z. takes.0)
            (λ nonzero.
              if-Leads ⊥ _ (has_error s) _ _ (λ bad. takes.0)
                (λ fine.
                  and_then-Leads ⊥ (λ a t. Keeps s t) _
                    (read_property runtime big header object key w s) _
                    (read_property-Keeps object key w s (takes.0.same ∙ same) takes.0.spent)
                    (λ (known, w') t k.
                      if-Leads ⊥ _ known _ _
                        (λ e.
                          weaker-Leads ⊥ (λ b u. Keeps t u) (λ b u. Keeps r u)
                            (property_loop runtime big header fuel object w' t)
                            (property_loop-Keeps fuel object w' t (k.same ∙ takes.0.same ∙ same)
                              k.spent (shorter s t takes fine k))
                            (λ b u k'. Keeps-trans r t u (Keeps-trans r s t takes.0 k) k'))
                        (λ e. Keeps-trans r s t takes.0 k)))))
    where
      shorter : (s t : Reader) → Takes r s → has_error s ≡ false → Keeps s t → left t < fuel
      shorter s t (keeps, inl less) fine k = omega (arith, less, k.fewer, enough)
      shorter s t (keeps, inr bad) fine k = absurd (cc (bad, fine))

  pub read_runtime_object-Takes :
      (fuel : ℕ) (w : World) (r : Reader)
      → r.bytes ≡ bytes
      → IsSpent r
      → left r < fuel
      → Leads ⊥ (λ a s. Takes r s) (read_runtime_object runtime big header fuel w r)
  unfolding read_runtime_object
  read_runtime_object-Takes fuel w r same h enough =
      and_then-Leads ⊥ (λ key s. Takes r s) _ (returned (read_var_uint_as as_int r)) _
        (returned-Leads ⊥ _ (read_var_uint_as as_int r)
          (λ key s e. (read_var_uint_as-Takes as_int r s key h e).0))
        (λ key s takes.
          let (object, w') = runtime.make_core_instance key w in
          weaker-Leads ⊥ (λ b t. Keeps s t) (λ b t. Takes r t)
            (property_loop runtime big header fuel object w' s)
            (property_loop-Keeps fuel object w' s (takes.0.same ∙ same) takes.0.spent
              (let k = takes.0 in omega (arith, k.fewer, enough)))
            (λ b t k. (Keeps-trans r s t takes.0 k, still s t takes k)))
    where
      still : (s t : Reader) → Takes r s → Keeps s t → (left t < left r) ⊎ (has_error t ≡ true)
      still s t (keeps, inl less) k = inl (let f = k.fewer in omega (arith, less, f))
      still s t (keeps, inr bad) k = inr (k.sticky bad)

module _ {World : Type 0} (runtime : Runtime World) (bytes : List ℕ)
    (only : OnlyReads runtime bytes) (objects : Objects World) (big : Bool) where
  -- Each round needs a byte, and the last one may end at an error.
  abbrev Enough : ℕ → Reader → Type 0
  Enough fuel r = ((has_error r ≡ true) × (0 < fuel)) ⊎ (left r + 1 < fuel)

  error_ends : (r : Reader) → reached_end r ≡ false → has_error r ≡ false
  unfolding reached_end has_error
  error_ends r e = ground (arith, e)

  more : (fuel : ℕ) (r : Reader) → reached_end r ≡ false → Enough (suc fuel) r → left r < fuel
  more fuel r e (inl (bad, some_left)) = absurd (cc (bad, error_ends r e))
  more fuel r e (inr enough) = omega (arith, enough)

  next_round : (fuel : ℕ) (r t : Reader) → left r < fuel → Takes r t → Enough fuel t
  next_round fuel r t enough (keeps, inl less) = inr (omega (arith, enough, less))
  next_round fuel r t enough (keeps, inr bad) = inl (bad, omega (arith, enough))

  handled-Leads :
      {A : Type 0} (P : A → Reader → Type 0) (o : Outcome World) (x : Import World → Result A)
      (y : Import World → Result A)
      → ((s : Import World) → Leads ⊥ P (x s))
      → ((s : Import World) → Leads ⊥ P (y s))
      → Leads ⊥ P (elim o [ undefined_there ↦ undefined | fails s ↦ x s | goes_on s ↦ y s ])
  handled-Leads P undefined_there x y h k = tt
  handled-Leads P (fails s) x y h k = h s
  handled-Leads P (goes_on s) x y h k = k s

  read_loop-Keeps :
      (header : Header) (key_fuel fuel : ℕ) (s : Import World) (r : Reader)
      → r.bytes ≡ bytes
      → IsSpent r
      → left r < key_fuel
      → Enough fuel r
      → Leads ⊥ (λ a t. Keeps r t) (read_loop runtime objects big header key_fuel fuel s r)
  unfolding read_loop
  read_loop-Keeps header key_fuel zero s r same h keys (inl (bad, enough)) = elim enough [ ]
  read_loop-Keeps header key_fuel zero s r same h keys (inr enough) = elim enough [ ]
  read_loop-Keeps header key_fuel (suc fuel) s r same h keys enough =
      if-Leads ⊥ _ (reached_end r) _ _ (λ e. Keeps-refl r h)
        (λ e.
          and_then-Leads ⊥ (λ a t. Takes r t) _
            (read_runtime_object runtime big header key_fuel s.stack.world r) _
            (read_runtime_object-Takes runtime bytes only big header key_fuel s.stack.world r same h
              keys)
            (λ (object, w) t takes.
              handled-Leads (λ a u. Keeps r u) (handle runtime objects object (set_world w s)) _ _
                (λ s'. takes.0)
                (λ s'.
                  weaker-Leads ⊥ (λ a u. Keeps t u) (λ a u. Keeps r u)
                    (read_loop runtime objects big header key_fuel fuel s' t)
                    (read_loop-Keeps header key_fuel fuel s' t (takes.0.same ∙ same) takes.0.spent
                      (let k = takes.0 in omega (arith, k.fewer, keys))
                      (next_round fuel r t (more fuel r e enough) takes))
                    (λ a u k. Keeps-trans r t u takes.0 k))))

  pub read_file-Keeps :
      (header : Header) (key_fuel fuel : ℕ) (s : Import World) (r : Reader)
      → r.bytes ≡ bytes
      → IsSpent r
      → left r < key_fuel
      → left r + 1 < fuel
      → Leads ⊥ (λ a t. Keeps r t) (read_file runtime objects big header key_fuel fuel s r)
  unfolding read_file
  read_file-Keeps header key_fuel fuel s r same h keys enough =
      and_then-Leads ⊥ (λ a t. Keeps r t) _ (read_loop runtime objects big header key_fuel fuel s r)
        _ (read_loop-Keeps header key_fuel fuel s r same h keys (inr enough))
        (λ (ended, s') t k.
          if-Leads ⊥ _ (not ended) _ _ (λ e. k)
            (λ e.
              if-Leads ⊥ _ (has_error t) _ _ (λ e. k)
                (λ e. if-Leads ⊥ _ (is_ok (resolve objects s'.stack).0) _ _ (λ e. k) (λ e. k))))

  -- On a buffer on which no `deserialize` moves the reader back or clears its error, as `readBytes`
  -- does with a number near 2 ^ 64 only, File::import returns, throws or meets undefined behaviour:
  -- each of its loops over the objects, over an object's properties and over the header's keys runs
  -- at most two rounds more than there are bytes.
  pub import_file-Ends :
      (fuel : ℕ) (w : World)
      → length bytes + 1 < fuel
      → Ends (import_file runtime objects big fuel bytes w)
  unfolding import_file reader has_error
  import_file-Ends fuel w enough =
      let r = reader bytes in
      Leads-Ends (λ a t. Keeps r t) (import_file runtime objects big fuel bytes w)
        (and_then-Leads ⊥ (λ a s. Keeps r s) _ (read big fuel _ r) _
          (Ends-Leads (λ a s. Keeps r s) (read big fuel _ r)
            (read-Ends big fuel _ r (omega (arith, enough))) (read-Kept big fuel _ r (λ bad. cc)))
          (λ (good, header) s k.
            if-Leads ⊥ (λ a t. Keeps r t) (not good) _ _ (λ e. k)
              (λ e.
                if-Leads ⊥ (λ a t. Keeps r t) (not (is_major runtime objects header.major_version))
                  _ _ (λ e. k) (λ e. rest header s k))))
    where
      rest :
          (header : Header) (s : Reader)
          → Keeps (reader bytes) s
          → Leads ⊥
              (λ a t. Keeps (reader bytes) t)
              (and_then
                (read_file runtime objects big header fuel fuel (new_import runtime objects w) s)
                (λ o t. done (if_success runtime objects o) t))
      rest header s k =
          and_then-Leads ⊥ (λ a t. Keeps s t) _
            (read_file runtime objects big header fuel fuel (new_import runtime objects w) s) _
            (read_file-Keeps header fuel fuel (new_import runtime objects w) s k.same k.spent
              (let less = k.fewer in omega (arith, less, enough))
              (let less = k.fewer in omega (arith, less, enough)))
            (λ o t k'. Keeps-trans (reader bytes) s t k k')
