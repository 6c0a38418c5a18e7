-- ===== src/Tests/Stack.antt =====
-- Witnesses and tests of the import stack (include/rive/importers/import_stack.hpp).
use rive_cpp_legacy.Prelude.{ℕ, ◌≡◌, refl, List, [], ◌∷◌, none, some, arith, if◌then◌else◌, ◌==◌}
use rive_cpp_legacy.Importers.Stack.{StatusCode, ImportStack, Objects, Call, perform}
use rive_cpp_legacy.Importers.Stack.Entries.{Entries}
use rive_cpp_legacy.Importers.Stack.Promised.{Represents, promised}
use rive_cpp_legacy.Importers.Stack.Refines.{Agrees, perform-Represents}

-- The world is the list of the objects that were resolved; the object 13 fails.
abbrev logging : Objects (List ℕ)
logging = record {
  resolve_object =
      λ o log. ((if o == 13 then StatusCode.invalid_object else StatusCode.ok), o ∷ log);
  reads_null = λ o log. (o == 7, log);
}

-- A backboard 7 with the key 23 and an artboard 8 with the key 1.
abbrev two : ImportStack (List ℕ)
two = record {
  latests = λ key. if 23 == key then some 7 else if 1 == key then some 8 else none;
  last_added = 7 ∷ 8 ∷ [];
  world = [];
}

abbrev two_entries : Entries
two_entries = (23, 7) ∷ (1, 8) ∷ []

two-Represents : Represents logging two two_entries
two-Represents =
    (refl, (λ x. refl), ((((λ e. omega (arith, e)), (λ e. omega (arith, e))), tt), (tt, tt)))

make_test : (perform logging (Call.make 1 (some 9)) two).1.last_added ≡ 7 ∷ 9 ∷ []
unfolding perform
make_test = refl

resolve_test : (perform logging Call.resolve_all two).1.world ≡ 7 ∷ 8 ∷ []
unfolding perform
resolve_test = refl

perform-Represents_example :
    Agrees logging
      (perform logging (Call.make 1 (some 9)) two)
      (promised logging (Call.make 1 (some 9)) two_entries [])
perform-Represents_example =
    perform-Represents logging (Call.make 1 (some 9)) two two_entries two-Represents
      ((λ e. omega (arith, e)), ((λ e. omega (arith, e)), tt))
