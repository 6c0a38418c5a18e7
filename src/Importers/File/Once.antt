-- ===== src/Importers/File/Once.antt =====
-- File::import (src/file.cpp) resolves each of the importers that it makes.
use rive_cpp_legacy.Prelude.{
  ℕ, zero, suc, ◌≡◌, refl, sym, ap, subst, ◌∙◌, Bool, true, false, not, List, [], Option, none,
  some, arith, ltb, count, if◌then◌else◌,
}
use rive_cpp_legacy.Core.Reader.{Reader, reader, has_error, reached_end}
use rive_cpp_legacy.Importers.Header.{Header, Result, undefined, done, and_then, read}
use rive_cpp_legacy.Importers.Header.Leads.{Leads, and_then-Leads, if-Leads, any-Leads}
use rive_cpp_legacy.Importers.Stack.{is_ok, ImportStack, Objects, backwards, resolve_loop, resolve}
use rive_cpp_legacy.Importers.Stack.Promised.{resolve_loop-newest}
use rive_cpp_legacy.Importers.File.{Runtime, read_runtime_object}
use rive_cpp_legacy.Importers.File.Good.{Good}
use rive_cpp_legacy.Importers.File.Logged.{logged_objects, logged, read_runtime_object_log}
use rive_cpp_legacy.Importers.File.Resolved.{count-resolve_newest}
use rive_cpp_legacy.Importers.File.Sound.{
  once, Logs, Counts, IsSound, set_world-Counts, handle-IsSound,
}
use rive_cpp_legacy.Importers.File.Read.{
  ImportResult, Outcome, undefined_there, fails, goes_on, set_world, handle, read_loop, read_file,
  new_import, is_major, if_success, import_file,
}

module _ {World : Type 0} (runtime : Runtime World) (objects : Objects World) where
  -- `resolve` writes down what is left on the stack.
  count-resolve :
      (n : ℕ) (stack : ImportStack (World × List ℕ))
      → Counts runtime objects n stack
      → is_ok (resolve (logged_objects objects) stack).0 ≡ true
      → (g : ℕ) → count g (resolve (logged_objects objects) stack).1.world.1 ≡ once n g
  unfolding resolve
  count-resolve n stack (entries, (order, same, d), counts) fine g =
      let e =
        ap (λ os. resolve_loop (logged_objects objects) (backwards os) stack.world) order
        ∙ resolve_loop-newest (logged_objects objects) entries stack.world in
      ap (λ r. count g r.1.1) e
      ∙ count-resolve_newest objects g entries stack.world (ap (λ r. is_ok r.0) (sym e) ∙ fine)
      ∙ counts g

  module _ (big : Bool) where
    abbrev EndsSound : Bool × Logs runtime objects → Reader → Type 0
    EndsSound (ended, s) t = ended ≡ true → IsSound runtime objects s

    handled :
        (o : Outcome (World × List ℕ)) (t : Reader)
        (y : Logs runtime objects → Result (Bool × Logs runtime objects))
        → Good (IsSound runtime objects) o
        → ((s : Logs runtime objects) → IsSound runtime objects s → Leads Unit EndsSound (y s))
        → Leads Unit EndsSound
            (elim o [ undefined_there ↦ undefined | fails s ↦ done (false, s) t | goes_on s ↦ y s ])
    handled undefined_there t y h k = tt
    handled (fails s) t y h k = λ e. cc
    handled (goes_on s) t y h k = k s h

    read_loop-IsSound :
        (header : Header) (key_fuel fuel : ℕ) (s : Logs runtime objects) (r : Reader)
        → IsSound runtime objects s
        → Leads Unit EndsSound
            (read_loop (logged runtime) (logged_objects objects) big header key_fuel fuel s r)
    unfolding read_loop
    read_loop-IsSound header key_fuel zero s r h = tt
    read_loop-IsSound header key_fuel (suc fuel) s r h =
        if-Leads Unit EndsSound (reached_end r) _ _ (λ e e'. h)
          (λ e.
            and_then-Leads Unit (λ (o, w) t. w.1 ≡ s.stack.world.1) EndsSound
              (read_runtime_object (logged runtime) big header key_fuel s.stack.world r) _
              (read_runtime_object_log runtime big header key_fuel s.stack.world r)
              (λ (o, w) t same.
                handled (handle (logged runtime) (logged_objects objects) o (set_world w s)) t _
                  (handle-IsSound runtime objects o (set_world w s)
                    (set_world-Counts runtime objects s.importers w s same h))
                  (λ s' h'. read_loop-IsSound header key_fuel fuel s' t h')))

    abbrev AllOnce : ImportResult × Logs runtime objects → Reader → Type 0
    AllOnce (result, s) t =
        result ≡ ImportResult.success → (g : ℕ) → count g s.stack.world.1 ≡ once s.importers g

    malformed-AllOnce : {A : Type 0} → ImportResult.malformed ≡ ImportResult.success → A
    malformed-AllOnce e = cc

    read_file-AllOnce :
        (header : Header) (key_fuel fuel : ℕ) (s : Logs runtime objects) (r : Reader)
        → IsSound runtime objects s
        → Leads Unit AllOnce
            (read_file (logged runtime) (logged_objects objects) big header key_fuel fuel s r)
    unfolding read_file
    read_file-AllOnce header key_fuel fuel s r h =
        and_then-Leads Unit EndsSound AllOnce
          (read_loop (logged runtime) (logged_objects objects) big header key_fuel fuel s r) _
          (read_loop-IsSound header key_fuel fuel s r h)
          (λ (ended, s') t sound.
            if-Leads Unit AllOnce (not ended) _ _ (λ e. malformed-AllOnce)
              (λ yes.
                if-Leads Unit AllOnce (has_error t) _ _ (λ e. malformed-AllOnce)
                  (λ e.
                    if-Leads Unit AllOnce (is_ok (resolve (logged_objects objects) s'.stack).0) _ _
                      (λ fine e g.
                        count-resolve s'.importers s'.stack (sound (not_false yes)) fine g)
                      (λ e. malformed-AllOnce))))
      where
        not_false : {b : Bool} → not b ≡ false → b ≡ true
        not_false {b = true} e = refl
        not_false {b = false} e = cc

    abbrev FileOnce : ImportResult × Option (Logs runtime objects) → Reader → Type 0
    FileOnce (result, file) t =
        (s : Logs runtime objects)
        → file ≡ some s
        → (g : ℕ) → count g s.stack.world.1 ≡ once s.importers g

    no_file :
        (file : Option (Logs runtime objects))
        → file ≡ none
        → (t : Reader) → FileOnce (ImportResult.malformed, file) t
    no_file file e t s e' g = cc

    if_success-FileOnce :
        (o : ImportResult × Logs runtime objects) (t : Reader)
        → AllOnce o t
        → FileOnce (if_success (logged runtime) (logged_objects objects) o) t
    if_success-FileOnce (ImportResult.success, s) t h s' e g =
        subst (λ (u : Logs runtime objects). count g u.stack.world.1 ≡ once u.importers g) (same e)
          (h refl g)
      where
        same : some s ≡ some s' → s ≡ s'
        same e = cc
    if_success-FileOnce (ImportResult.unsupported_version, s) t h s' e g = cc
    if_success-FileOnce (ImportResult.malformed, s) t h s' e g = cc

    import_file-FileOnce :
        (fuel : ℕ) (bytes : List ℕ) (w : World)
        → Leads Unit FileOnce
            (import_file (logged runtime) (logged_objects objects) big fuel bytes (w, []))
    unfolding import_file
    import_file-FileOnce fuel bytes w =
        and_then-Leads Unit (λ a t. Unit) FileOnce (read big fuel _ (reader bytes)) _
          (any-Leads (read big fuel _ (reader bytes)))
          (λ (good, header) r u.
            if-Leads Unit FileOnce (not good) _ _ (λ e. no_file none refl r)
              (λ e.
                if-Leads Unit FileOnce
                  (not (is_major (logged runtime) (logged_objects objects) header.major_version)) _
                  _ (λ e. no_file none refl r) (λ e. rest header r)))
      where
        start : Logs runtime objects
        start = new_import (logged runtime) (logged_objects objects) (w, [])

        rest :
            (header : Header) (r : Reader)
            → Leads Unit FileOnce (
                and_then
                  (read_file (logged runtime) (logged_objects objects) big header fuel fuel start r)
                  (λ o t. done (if_success (logged runtime) (logged_objects objects) o) t))
        rest header r =
            and_then-Leads Unit AllOnce FileOnce
              (read_file (logged runtime) (logged_objects objects) big header fuel fuel start r) _
              (read_file-AllOnce header fuel fuel start r
                ([], (refl, (λ x. refl), tt), λ g. ground arith))
              (λ o t h. if_success-FileOnce o t h)

    -- Where File::import succeeds, each importer that it made was resolved exactly once, and nothing
    -- else was.
    pub import_file_resolves :
        (fuel : ℕ) (bytes : List ℕ) (w : World) (s : Logs runtime objects) (r : Reader)
        → import_file (logged runtime) (logged_objects objects) big fuel bytes (w, [])
          ≡ done (ImportResult.success, some s) r
        → (g : ℕ) → count g s.stack.world.1 ≡ (if ltb g s.importers then 1 else 0)
    import_file_resolves fuel bytes w s r e g =
        subst (λ m. Leads Unit FileOnce m) e (import_file-FileOnce fuel bytes w) s refl g
