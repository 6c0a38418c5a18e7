-- ===== src/Importers/File/Keeps.antt =====
-- What readRuntimeObject (src/file.cpp) does to the reader when it skips a property.
use rive_cpp_legacy.Prelude.{
  ℕ, ◌≡◌, subst, inl, inr, Bool, Option, none, some, arith, Bool-cases, ◌==◌,
}
use rive_cpp_legacy.Core.Reader.{
  Reader, read_string, read_float32, read_uint32, read_var_uint_as, as_uint32,
}
use rive_cpp_legacy.Importers.File.{skip_field, without_value}
use rive_cpp_legacy.Core.Reader.Keeps.{
  IsSpent, Keeps, Keeps-refl, read_var_uint_as-Takes, read_string-Keeps, read_float32-Keeps,
  read_uint32-Keeps,
}

without_value-some :
    {A : Type 0} (o : Option (A × Reader)) (u : Unit {0}) (s : Reader)
    → without_value o ≡ some (u, s)
    → (a : A) × (o ≡ some (a, s))
without_value-some none u s e = cc
without_value-some (some (a, t)) u s e = (a, ground (arith, e))

-- A property that is skipped.
pub skip_field-Keeps :
    (big : Bool) (id : ℕ) (r s : Reader) (u : Unit {0})
    → IsSpent r
    → skip_field big id r ≡ some (u, s)
    → Keeps r s
unfolding skip_field
skip_field-Keeps big id r s u h e = elim (Bool-cases (id == 0)) [
  | inl uint ↦
      let (v, there) = without_value-some (read_var_uint_as as_uint32 r) u s (rw uint at e) in
      (read_var_uint_as-Takes as_uint32 r s v h there).0.0
  | inr n0 ↦ elim (Bool-cases (id == 1)) [
    | inl string ↦
        let (v, there) = without_value-some (read_string r) u s (rw (n0, string) at e) in
        read_string-Keeps r s v h there
    | inr n1 ↦ elim (Bool-cases (id == 2)) [
      | inl double ↦
          let (v, there) = without_value-some (read_float32 big r) u s (rw (n0, n1, double) at e) in
          read_float32-Keeps big r s v h there
      | inr n2 ↦ elim (Bool-cases (id == 3)) [
        | inl color ↦
            let (v, there) =
              without_value-some (read_uint32 big r) u s (rw (n0, n1, n2, color) at e) in
            read_uint32-Keeps big r s v h there
        | inr n3 ↦
            let same : r ≡ s = ground (arith, n0, n1, n2, n3, e) in
            subst (λ t. Keeps r t) same (Keeps-refl r h)
      ]
    ]
  ]
]
