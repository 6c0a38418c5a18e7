-- ===== src/Importers/File/Whole.antt =====
-- readRuntimeObject (src/file.cpp) on an object that is wholly in the buffer.
use rive_cpp_legacy.Prelude.{
  ℕ, zero, suc, ◌^◌, ◌<◌, ◌≡◌, refl, sym, ap, ◌∙◌, Bool, false, List, [], ◌∷◌, ◌++◌, Option, some,
  arith, ◌==◌,
}
use mathlib.Core.List.{append_assoc, append-nil}
use rive_cpp_legacy.Prelude.Int.{pos}
use rive_cpp_legacy.Core.Leb.{write_var_uint}
use rive_cpp_legacy.Core.Reader.{overflow, has_error, read_var_uint_as, as_int, as_uint16}
use rive_cpp_legacy.Core.Reader.Behind.{
  behind, read_var_uint_as_end, read_var_uint_as-write_var_uint,
}
use rive_cpp_legacy.Importers.Header.{Header, done, and_then, returned}
use rive_cpp_legacy.Importers.File.{Runtime, property_loop, read_runtime_object}
use rive_cpp_legacy.Importers.File.Stored.{Property, Properties, read_property-whole}

module _ {World : Type 0} (runtime : Runtime World) (big : Bool) (header : Header) where
  read_uint16_whole :
      (key : ℕ) (bytes all front back : List ℕ)
      → key < 2 ^ 16
      → write_var_uint key ≡ some bytes
      → all ≡ front ++ (bytes ++ back)
      → read_var_uint_as as_uint16 (behind all front) ≡ some (pos key, behind all (front ++ bytes))
  read_uint16_whole key bytes all front back h w e =
      read_var_uint_as-write_var_uint as_uint16 all front bytes back key h w e

  -- One round of the loop.
  Property-round :
      (fuel key : ℕ) (object : Option ℕ) (key_bytes bytes : List ℕ) (w w' : World)
      → 0 < key
      → key < 2 ^ 16
      → write_var_uint key ≡ some key_bytes
      → Property runtime big header object key bytes w w'
      → (all front back : List ℕ) → all ≡ front ++ (key_bytes ++ (bytes ++ back))
      → property_loop runtime big header (suc fuel) object w (behind all front)
        ≡ property_loop runtime big header fuel object w'
            (behind all ((front ++ key_bytes) ++ bytes))
  unfolding property_loop and_then returned has_error
  Property-round fuel key object key_bytes bytes w w' positive h e1 property all front back e =
      let e2 : all ≡ (front ++ key_bytes) ++ (bytes ++ back) =
        e ∙ sym (append_assoc front key_bytes (bytes ++ back)) in
      let one = read_uint16_whole key key_bytes all front (bytes ++ back) h e1 e in
      let two =
        read_property-whole runtime big header object key bytes w w' property all
          (front ++ key_bytes) back e2 in
      let nonzero : (key == 0) ≡ false = ground (arith, positive) in rw (one, nonzero, two) refl

  -- The loop comes behind the last property.
  property_rounds :
      (object : Option ℕ) (end : List ℕ) (n : ℕ) (bytes : List ℕ) (w w' : World)
      → Properties runtime big header object end n bytes w w'
      → (fuel : ℕ) → n < fuel
      → (all front back : List ℕ) → all ≡ front ++ (bytes ++ back)
      → (k : ℕ) × (front' : List ℕ) × (front' ++ end ≡ front ++ bytes)
        × (property_loop runtime big header fuel object w (behind all front)
            ≡ property_loop runtime big header (suc k) object w' (behind all front'))
  property_rounds object end _ _ _ _ properties zero enough all front back e = elim enough [ ]
  property_rounds object end _ _ _ _ (Properties.no_more w) (suc k) enough all front back e =
      (k, front, refl, refl)
  property_rounds object end _ _ _ _
        (Properties.one_more n key key_bytes bytes rest w w' w'' positive h e1 property more)
        (suc fuel) enough all front back e =
      let e2 : all ≡ front ++ (key_bytes ++ (bytes ++ (rest ++ back))) =
        e
        ∙ ap (λ l. front ++ l)
            (append_assoc key_bytes (bytes ++ rest) back
              ∙ ap (λ l. key_bytes ++ l) (append_assoc bytes rest back)) in
      let e3 : all ≡ ((front ++ key_bytes) ++ bytes) ++ (rest ++ back) =
        e2
        ∙ sym (append_assoc front key_bytes (bytes ++ (rest ++ back)))
        ∙ sym (append_assoc (front ++ key_bytes) bytes (rest ++ back)) in
      let (k, front', there, loop) =
        property_rounds object end n rest w' w'' more fuel (omega (arith, enough)) all
          ((front ++ key_bytes) ++ bytes) back e3 in
      (
        k,
        front',
        there
            ∙ append_assoc (front ++ key_bytes) bytes rest
            ∙ append_assoc front key_bytes (bytes ++ rest),
        Property-round fuel key object key_bytes bytes w w' positive h e1 property all front
              (rest ++ back) e2
            ∙ loop,
      )

  property_loop-whole :
      (object : Option ℕ) (n : ℕ) (bytes : List ℕ) (w w' : World)
      → Properties runtime big header object (0 ∷ []) n bytes w w'
      → (fuel : ℕ) → n < fuel
      → (all front back : List ℕ) → all ≡ front ++ (bytes ++ back)
      → property_loop runtime big header fuel object w (behind all front)
        ≡ done (object, w') (behind all (front ++ bytes))
  unfolding property_loop and_then returned write_var_uint
  property_loop-whole object n bytes w w' properties fuel enough all front back e =
      let (k, front', there, loop) =
        property_rounds object _ n bytes w w' properties fuel enough all front back e in
      let e2 : all ≡ front' ++ (0 ∷ back) =
        e
        ∙ sym (append_assoc front bytes back)
        ∙ ap (λ l. l ++ back) (sym there)
        ∙ append_assoc front' (0 ∷ []) back in
      let one = read_uint16_whole 0 (0 ∷ []) all front' back (omega arith) refl e2 in
      loop ∙ (rw one (ap (λ f. done (object, w') (behind all f)) there))

  -- An object that is wholly in the buffer is read with the effects of its properties in their
  -- order, and the reader then stands behind it: what an object does not know, or a type of objects
  -- that the runtime does not know, is skipped with nothing else read.
  pub read_runtime_object_whole :
      (n type : ℕ) (object : Option ℕ) (type_bytes bytes : List ℕ) (w w' w'' : World)
      → type < 2 ^ 31
      → write_var_uint type ≡ some type_bytes
      → runtime.make_core_instance (pos type) w ≡ (object, w')
      → Properties runtime big header object (0 ∷ []) n bytes w' w''
      → (fuel : ℕ) → n < fuel
      → (all front back : List ℕ) → all ≡ front ++ ((type_bytes ++ bytes) ++ back)
      → read_runtime_object runtime big header fuel w (behind all front)
        ≡ done (object, w'') (behind all (front ++ (type_bytes ++ bytes)))
  unfolding read_runtime_object and_then returned
  read_runtime_object_whole n type object type_bytes bytes w w' w'' h e1 made properties fuel enough
        all front back e =
      let e2 : all ≡ front ++ (type_bytes ++ (bytes ++ back)) =
        e ∙ ap (λ l. front ++ l) (append_assoc type_bytes bytes back) in
      let e3 : all ≡ (front ++ type_bytes) ++ (bytes ++ back) =
        e2 ∙ sym (append_assoc front type_bytes (bytes ++ back)) in
      let one =
        read_var_uint_as-write_var_uint as_int all front type_bytes (bytes ++ back) type h e1 e2 in
      rw (one, made)
        (property_loop-whole object n bytes w' w'' properties fuel enough all (front ++ type_bytes)
            back e3
          ∙ ap (λ f. done (object, w'') (behind all f)) (append_assoc front type_bytes bytes))

  property_loop-cut :
      (object : Option ℕ) (n : ℕ) (bytes : List ℕ) (w w' : World)
      → Properties runtime big header object [] n bytes w w'
      → (fuel : ℕ) → n < fuel
      → (all front : List ℕ) → all ≡ front ++ bytes
      → property_loop runtime big header fuel object w (behind all front)
        ≡ done (object, w') (overflow (behind all all))
  unfolding property_loop and_then returned
  property_loop-cut object n bytes w w' properties fuel enough all front e =
      let (k, front', there, loop) =
        property_rounds object _ n bytes w w' properties fuel enough all front []
          (e ∙ ap (λ l. front ++ l) (sym (append-nil bytes))) in
      let at_end : all ≡ front' = e ∙ sym there ∙ append-nil front' in
      loop ∙ rw (← at_end, read_var_uint_as_end as_uint16 all) refl

  -- An object that the end of the buffer cuts off in front of a key, or of the 0 behind its
  -- properties, is returned like a whole one, although the reader has overflowed.
  pub read_runtime_object_cut :
      (n type : ℕ) (object : Option ℕ) (type_bytes bytes : List ℕ) (w w' w'' : World)
      → type < 2 ^ 31
      → write_var_uint type ≡ some type_bytes
      → runtime.make_core_instance (pos type) w ≡ (object, w')
      → Properties runtime big header object [] n bytes w' w''
      → (fuel : ℕ) → n < fuel
      → (all front : List ℕ) → all ≡ front ++ (type_bytes ++ bytes)
      → read_runtime_object runtime big header fuel w (behind all front)
        ≡ done (object, w'') (overflow (behind all all))
  unfolding read_runtime_object and_then returned
  read_runtime_object_cut n type object type_bytes bytes w w' w'' h e1 made properties fuel enough
        all front e =
      let one = read_var_uint_as-write_var_uint as_int all front type_bytes bytes type h e1 e in
      rw (one, made)
        (property_loop-cut object n bytes w' w'' properties fuel enough all (front ++ type_bytes)
          (e ∙ sym (append_assoc front type_bytes bytes)))
