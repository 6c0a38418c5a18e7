-- ===== src/Importers/Stack/Promised.antt =====
-- What ImportStack (include/rive/importers/import_stack.hpp) promises, on the sequence of its
-- entries, and its two loops over m_lastAdded.
use rive_cpp_legacy.Prelude.{
  ℕ, ◌≡◌, refl, ap, ◌∙◌, inl, inr, Bool, true, false, List, [], ◌∷◌, ◌++◌, Option, none, some,
  Bool-cases, if◌then◌else◌,
}
use rive_cpp_legacy.Importers.Stack.{
  StatusCode, is_ok, ImportStack, Objects, backwards, resolve_loop, null_loop, Call, Answer,
}
use rive_cpp_legacy.Importers.Stack.Entries.{Entries, lookup, remove, objects_of, AreDistinct}

abbrev pub put : ℕ → Option ℕ → Entries → Entries
put key none entries = entries
put key (some o) entries = entries ++ (key, o) ∷ []

module _ {World : Type 0} (objects : Objects World) where
  open objects use {resolve_object, reads_null}

  -- All objects are resolved, the newest first, up to the first that fails.
  unfoldable pub resolve_newest : Entries → World → StatusCode × World
  resolve_newest [] world = (StatusCode.ok, world)
  resolve_newest ((key, o) ∷ newer) world =
      let (code, world') = resolve_newest newer world in
      if is_ok code then resolve_object o world' else (code, world')

  -- The newest object that reads the null object does so.
  unfoldable pub null_newest : Entries → World → Bool × World
  null_newest [] world = (false, world)
  null_newest ((key, o) ∷ newer) world =
      let (found, world') = null_newest newer world in
      if found then (true, world') else reads_null o world'

  -- The object of the key is resolved and goes; unless that fails, the new one comes last.
  unfoldable pub replace : ℕ → Option ℕ → Entries → World → StatusCode × (Entries × World)
  replace key added entries world = elim (lookup key entries) [
    | none ↦ (StatusCode.ok, (put key added entries, world))
    | some old ↦
        let (code, world') = resolve_object old world in
        if is_ok code
        then (code, (put key added (remove key entries), world'))
        else (code, (remove key entries, world'))
  ]

  -- The calls on the sequence of entries.
  unfoldable pub promised : Call objects → Entries → World → Answer objects × (Entries × World)
  unfolding replace resolve_newest null_newest
  promised (Call.find_latest key) entries world =
      (Answer.object (lookup key entries), (entries, world))
  promised (Call.make key added) entries world =
      let (code, next) = replace key added entries world in (Answer.status code, next)
  promised Call.resolve_all entries world =
      let (code, world') = resolve_newest entries world in (Answer.status code, ([], world'))
  promised Call.read_null entries world =
      let (found, world') = null_newest entries world in (Answer.was_read found, (entries, world'))

  abbrev pub Represents : ImportStack World → Entries → Type 0
  Represents s entries =
      (s.last_added ≡ objects_of entries)
      × ((x : ℕ) → s.latests x ≡ lookup x entries)
      × AreDistinct entries

  ended : (r : StatusCode × World) → (if is_ok r.0 then (StatusCode.ok, r.1) else (r.0, r.1)) ≡ r
  ended (StatusCode.ok, world) = refl
  ended (StatusCode.missing_object, world) = refl
  ended (StatusCode.invalid_object, world) = refl
  ended (StatusCode.failed_inversion, world) = refl

  resolve_loop-append :
      (xs : List ℕ) (o : ℕ) (world : World)
      → resolve_loop objects (xs ++ o ∷ []) world ≡ (
          let (code, world') = resolve_loop objects xs world in
          if is_ok code then resolve_object o world' else (code, world'))
  unfolding resolve_loop
  resolve_loop-append [] o world = ended (resolve_object o world)
  resolve_loop-append (x ∷ xs) o world = elim (Bool-cases (is_ok (resolve_object x world).0)) [
    | inl fine ↦ rw fine (resolve_loop-append xs o (resolve_object x world).1)
    | inr failed ↦ rw (failed, failed) refl
  ]

  pub resolve_loop-newest :
      (entries : Entries) (world : World)
      → resolve_loop objects (backwards (objects_of entries)) world ≡ resolve_newest entries world
  unfolding resolve_newest backwards resolve_loop
  resolve_loop-newest [] world = refl
  resolve_loop-newest ((key, o) ∷ newer) world =
      resolve_loop-append (backwards (objects_of newer)) o world
      ∙ ap (λ (r : StatusCode × World). if is_ok r.0 then resolve_object o r.1 else (r.0, r.1))
          (resolve_loop-newest newer world)

  null_ended : (r : Bool × World) → (if r.0 then (true, r.1) else (false, r.1)) ≡ r
  null_ended (true, world) = refl
  null_ended (false, world) = refl

  null_loop-append :
      (xs : List ℕ) (o : ℕ) (world : World)
      → null_loop objects (xs ++ o ∷ []) world ≡ (
          let (found, world') = null_loop objects xs world in
          if found then (true, world') else reads_null o world')
  unfolding null_loop
  null_loop-append [] o world = null_ended (reads_null o world)
  null_loop-append (x ∷ xs) o world = elim (Bool-cases (reads_null x world).0) [
    | inl found ↦ rw found refl
    | inr absent ↦ rw absent (null_loop-append xs o (reads_null x world).1)
  ]

  pub null_loop-newest :
      (entries : Entries) (world : World)
      → null_loop objects (backwards (objects_of entries)) world ≡ null_newest entries world
  unfolding null_newest backwards null_loop
  null_loop-newest [] world = refl
  null_loop-newest ((key, o) ∷ newer) world =
      null_loop-append (backwards (objects_of newer)) o world
      ∙ ap (λ (r : Bool × World). if r.0 then (true, r.1) else reads_null o r.1)
          (null_loop-newest newer world)
