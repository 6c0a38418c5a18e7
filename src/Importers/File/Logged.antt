-- ===== src/Importers/File/Logged.antt =====
-- The runtime that writes down which importers are resolved (src/file.cpp).
use rive_cpp_legacy.Prelude.{
  ℕ, zero, suc, ◌≡◌, refl, ◌∙◌, Bool, List, [], ◌∷◌, Option, none, some, Bool-cases, inl, inr,
}
use rive_cpp_legacy.Prelude.Int.{ℤ}
use rive_cpp_legacy.Core.Reader.{Reader, has_error, read_var_uint_as, as_int, as_uint16}
use rive_cpp_legacy.Importers.Header.{Header, Result, returned, is_zero}
use rive_cpp_legacy.Importers.Header.Leads.{
  Leads, and_then-Leads, returned-Leads, if-Leads, weaker-Leads,
}
use rive_cpp_legacy.Importers.Stack.{ImportStack, Objects, null_loop, read_null_object}
use rive_cpp_legacy.Importers.File.{
  Runtime, skip_field, field_of, skip_property, read_property, delete_object, property_loop,
  read_runtime_object,
}

-- With the importers that were resolved, the last one first.
abbrev pub logged_objects : {World : Type 0} → Objects World → Objects (World × List ℕ)
logged_objects objects = record {
  resolve_object = λ g w. let (code, w') = objects.resolve_object g w.0 in (code, (w', g ∷ w.1));
  reads_null = λ g w. let (found, w') = objects.reads_null g w.0 in (found, (w', w.1));
}

abbrev with_log :
    {World : Type 0}
    → List ℕ
    → Option ((Bool × World) × Reader)
    → Option ((Bool × (World × List ℕ)) × Reader)
with_log log none = none
with_log log (some ((known, w), r)) = some ((known, (w, log)), r)

abbrev pub logged : {World : Type 0} → Runtime World → Runtime (World × List ℕ)
logged runtime = record {
  make_core_instance =
      λ key w. let (object, w') = runtime.make_core_instance key w.0 in (object, (w', w.1));
  property_field_id = runtime.property_field_id;
  core_type = λ o w. runtime.core_type o w.0;
  is_data_bind = λ o w. runtime.is_data_bind o w.0;
  is_layer_component = λ o w. runtime.is_layer_component o w.0;
  deserialize = λ o key w r. with_log w.1 (runtime.deserialize o key w.0 r);
  import_object =
      λ o latests w. let (code, w') = runtime.import_object o latests w.0 in (code, (w', w.1));
  destroy = λ o w. (runtime.destroy o w.0, w.1);
  set_target = λ o last w. (runtime.set_target o last w.0, w.1);
  set_factory = λ o w. (runtime.set_factory o w.0, w.1);
  enum_id = λ o w. runtime.enum_id o w.0;
  set_data_enum = λ o e w. (runtime.set_data_enum o e w.0, w.1);
  make_importer = λ g o parent w. (runtime.make_importer g o parent w.0, w.1);
  make_component_importer = λ g o w. (runtime.make_component_importer g o w.0, w.1);
}

module _ {World : Type 0} (objects : Objects World) where
  null_loop_log :
      (xs : List ℕ) (w : World × List ℕ) → (null_loop (logged_objects objects) xs w).1.1 ≡ w.1
  unfolding null_loop
  null_loop_log [] w = refl
  null_loop_log (x ∷ xs) w = elim (Bool-cases (objects.reads_null x w.0).0) [
    | inl found ↦ rw found refl
    | inr absent ↦ rw absent (null_loop_log xs ((objects.reads_null x w.0).1, w.1))
  ]

  pub read_null_object_log :
      (s : ImportStack (World × List ℕ))
      → (read_null_object (logged_objects objects) s).1.world.1 ≡ s.world.1
  unfolding read_null_object
  read_null_object_log s = null_loop_log _ s.world

-- Nothing is written down while an object is read.
module _ {World : Type 0} (runtime : Runtime World) (big : Bool) (header : Header) where
  abbrev SameLog : {A : Type 0} → List ℕ → Result (A × (World × List ℕ)) → Type 0
  SameLog log m = Leads Unit (λ (a, w') s. w'.1 ≡ log) m

  skip_property_log :
      (id : Option ℕ) (w : World × List ℕ) (r : Reader)
      → SameLog w.1 (skip_property (logged runtime) big header id w r)
  unfolding skip_property
  skip_property_log none w r = refl
  skip_property_log (some id) w r =
      and_then-Leads Unit (λ u s. Unit) _ (returned (skip_field big id r)) _
        (returned-Leads Unit _ (skip_field big id r) (λ u s e. tt)) (λ u s k. refl)

  with_log_same :
      (log : List ℕ) (o : Option ((Bool × World) × Reader)) (known : Bool) (w : World × List ℕ)
      (s : Reader)
      → with_log log o ≡ some ((known, w), s)
      → w.1 ≡ log
  with_log_same log none known w s e = cc
  with_log_same log (some o) known w s e = cc

  read_property_log :
      (object : Option ℕ) (key : ℤ) (w : World × List ℕ) (r : Reader)
      → SameLog w.1 (read_property (logged runtime) big header object key w r)
  unfolding read_property
  read_property_log none key w r = skip_property_log (field_of (logged runtime) big header key) w r
  read_property_log (some object) key w r =
      let found = runtime.deserialize object key w.0 r in
      and_then-Leads Unit (λ (known, w') s. w'.1 ≡ w.1) _ (returned (with_log w.1 found)) _
        (returned-Leads Unit _ (with_log w.1 found)
          (λ (known, w') s e. with_log_same w.1 found known w' s e))
        (λ (known, w') s same.
          if-Leads Unit _ known _ _ (λ e. same)
            (λ e.
              weaker-Leads Unit (λ (b, w'') t. w''.1 ≡ w'.1) _
                (skip_property (logged runtime) big header
                  (field_of (logged runtime) big header key) w' s)
                (skip_property_log (field_of (logged runtime) big header key) w' s)
                (λ b t same'. same' ∙ same)))

  delete_object_log :
      (object : Option ℕ) (w : World × List ℕ)
      → (delete_object (logged runtime) big header object w).1 ≡ w.1
  delete_object_log none w = refl
  delete_object_log (some o) w = refl

  property_loop_log :
      (fuel : ℕ) (object : Option ℕ) (w : World × List ℕ) (r : Reader)
      → SameLog w.1 (property_loop (logged runtime) big header fuel object w r)
  unfolding property_loop
  property_loop_log zero object w r = tt
  property_loop_log (suc fuel) object w r =
      and_then-Leads Unit (λ key s. Unit) _ (returned (read_var_uint_as as_uint16 r)) _
        (returned-Leads Unit _ (read_var_uint_as as_uint16 r) (λ key s e. tt))
        (λ key s t.
          if-Leads Unit _ (is_zero key) _ _ (λ e. refl)
            (λ e.
              if-Leads Unit _ (has_error s) _ _ (λ e. delete_object_log object w)
                (λ e.
                  and_then-Leads Unit (λ (known, w') t. w'.1 ≡ w.1) _
                    (read_property (logged runtime) big header object key w s) _
                    (read_property_log object key w s)
                    (λ (known, w') t same.
                      if-Leads Unit _ known _ _
                        (λ e.
                          weaker-Leads Unit (λ (b, w'') t. w''.1 ≡ w'.1) _
                            (property_loop (logged runtime) big header fuel object w' t)
                            (property_loop_log fuel object w' t) (λ b t same'. same' ∙ same))
                        (λ e. delete_object_log object w' ∙ same)))))

  pub read_runtime_object_log :
      (fuel : ℕ) (w : World × List ℕ) (r : Reader)
      → SameLog w.1 (read_runtime_object (logged runtime) big header fuel w r)
  unfolding read_runtime_object
  read_runtime_object_log fuel w r =
      and_then-Leads Unit (λ key s. Unit) _ (returned (read_var_uint_as as_int r)) _
        (returned-Leads Unit _ (read_var_uint_as as_int r) (λ key s e. tt))
        (λ key s t.
          let (object, w') = runtime.make_core_instance key w.0 in
          property_loop_log fuel object (w', w.1) s)
