-- ===== src/Importers/File/Stored.antt =====
-- The bytes that readRuntimeObject (src/file.cpp) reads as an object's properties.
use rive_cpp_legacy.Prelude.{
  ℕ, suc, ◌+◌, ◌^◌, ◌<◌, ◌≡◌, refl, ap, ◌∙◌, Bool, true, false, List, [], ◌∷◌, ◌++◌, Option, none,
  some, length, if◌then◌else◌,
}
use mathlib.Core.List.{append-nil}
use rive_cpp_legacy.Prelude.Int.{pos}
use rive_cpp_legacy.Core.Leb.{write_var_uint}
use rive_cpp_legacy.Core.Reader.{as_uint32}
use rive_cpp_legacy.Core.Reader.Behind.{
  behind, read_var_uint_as-write_var_uint, read_string-behind, read_float32-behind,
  read_uint32-behind,
}
use rive_cpp_legacy.Importers.Header.{Header, done, and_then, returned}
use rive_cpp_legacy.Importers.File.{Runtime, skip_field, field_of, skip_property, read_property}

-- The bytes of a value of each type that a field's id names.
pub data Encoded : ℕ → List ℕ → Type 0 where
  uint :
      (value : ℕ) (bytes : List ℕ)
      → value < 2 ^ 32
      → write_var_uint value ≡ some bytes
      → Encoded 0 bytes
  string :
      (text bytes : List ℕ)
      → length text + 1 < 2 ^ 63
      → write_var_uint (length text) ≡ some bytes
      → Encoded 1 (bytes ++ text)
  double : (b0 b1 b2 b3 : ℕ) → Encoded 2 (b0 ∷ b1 ∷ b2 ∷ b3 ∷ [])
  color : (b0 b1 b2 b3 : ℕ) → Encoded 3 (b0 ∷ b1 ∷ b2 ∷ b3 ∷ [])

skip_field-Encoded :
    (big : Bool) (id : ℕ) (bytes : List ℕ)
    → Encoded id bytes
    → (all front back : List ℕ) → all ≡ front ++ (bytes ++ back)
    → skip_field big id (behind all front) ≡ some (tt, behind all (front ++ bytes))
unfolding skip_field
skip_field-Encoded big _ _ (Encoded.uint value bytes h w) all front back e =
    rw (read_var_uint_as-write_var_uint as_uint32 all front bytes back value h w e) refl
skip_field-Encoded big _ _ (Encoded.string text bytes h w) all front back e =
    rw (read_string-behind all front bytes text back h w e) refl
skip_field-Encoded big _ _ (Encoded.double b0 b1 b2 b3) all front back e =
    rw (read_float32-behind big all front back b0 b1 b2 b3 e).1 refl
skip_field-Encoded big _ _ (Encoded.color b0 b1 b2 b3) all front back e =
    rw (read_uint32-behind big all front back b0 b1 b2 b3 e).1 refl

module _ {World : Type 0} (runtime : Runtime World) (big : Bool) (header : Header) where
  -- `deserialize` of the bytes, wherever they stand: what it answers, and what it leaves.
  abbrev pub Deserializes : ℕ → ℕ → List ℕ → World → Bool → World → Type 0
  Deserializes object key bytes w known w' =
      (all front back : List ℕ)
      → all ≡ front ++ (bytes ++ back)
      → runtime.deserialize object (pos key) w (behind all front)
        ≡ some ((known, w'), behind all (front ++ (if known then bytes else [])))

  -- What a key and the bytes behind it mean: a property of the object, or one that it does not know,
  -- of a type that the runtime or the header knows.
  pub data Property : Option ℕ → ℕ → List ℕ → World → World → Type 0 where
    known :
        (object key : ℕ) (bytes : List ℕ) (w w' : World)
        → Deserializes object key bytes w true w'
        → Property (some object) key bytes w w'
    unknown :
        (object key id : ℕ) (bytes : List ℕ) (w w' : World)
        → Deserializes object key bytes w false w'
        → field_of runtime big header (pos key) ≡ some id
        → Encoded id bytes
        → Property (some object) key bytes w w'
    of_no_object :
        (key id : ℕ) (bytes : List ℕ) (w : World)
        → field_of runtime big header (pos key) ≡ some id
        → Encoded id bytes
        → Property none key bytes w w

  -- So many properties with their keys, and what stands behind them.
  pub data Properties (object : Option ℕ) (end : List ℕ) : ℕ → List ℕ → World → World → Type 0 where
    no_more : (w : World) → Properties object end 0 end w w
    one_more :
        (n key : ℕ) (key_bytes bytes rest : List ℕ) (w w' w'' : World)
        → 0 < key
        → key < 2 ^ 16
        → write_var_uint key ≡ some key_bytes
        → Property object key bytes w w'
        → Properties object end n rest w' w''
        → Properties object end (suc n) (key_bytes ++ (bytes ++ rest)) w w''

  skip_property-Encoded :
      (id : ℕ) (bytes : List ℕ) (w : World)
      → Encoded id bytes
      → (all front back : List ℕ) → all ≡ front ++ (bytes ++ back)
      → skip_property runtime big header (some id) w (behind all front)
        ≡ done (true, w) (behind all (front ++ bytes))
  unfolding skip_property and_then returned
  skip_property-Encoded id bytes w h all front back e =
      rw (skip_field-Encoded big id bytes h all front back e) refl

  pub read_property-whole :
      (object : Option ℕ) (key : ℕ) (bytes : List ℕ) (w w' : World)
      → Property object key bytes w w'
      → (all front back : List ℕ) → all ≡ front ++ (bytes ++ back)
      → read_property runtime big header object (pos key) w (behind all front)
        ≡ done (true, w') (behind all (front ++ bytes))
  unfolding read_property and_then returned
  read_property-whole _ _ _ _ _ (Property.known object key bytes w w' reads) all front back e =
      rw (reads all front back e) refl
  read_property-whole _ _ _ _ _ (Property.unknown object key id bytes w w' reads field h) all front
        back e =
      let there = skip_property-Encoded id bytes w' h all front back e in
      let nothing_read =
        reads all front back e ∙ ap (λ f. some ((false, w'), behind all f)) (append-nil front) in
      rw (nothing_read, field) there
  read_property-whole _ _ _ _ _ (Property.of_no_object key id bytes w field h) all front back e =
      rw field (skip_property-Encoded id bytes w h all front back e)
