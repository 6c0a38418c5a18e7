-- ===== src/Importers/Stack/Refines.antt =====
-- ImportStack (include/rive/importers/import_stack.hpp) keeps its two collections in step.
use rive_cpp_legacy.Prelude.{
  ℕ, ◌≡◌, ◌≢◌, refl, sym, ap, subst, ◌∙◌, inl, inr, true, false, [], ◌∷◌, ◌++◌, Option, none, some,
  arith, Bool-cases, ==_iff, Option-cases, if◌then◌else◌, ◌==◌, All,
}
use rive_cpp_legacy.Importers.Stack.{
  StatusCode, is_ok, ImportStack, Objects, backwards, erase_first, latest, set_latest, place,
  make_latest, resolve_loop, resolve, null_loop, read_null_object, Call, Answer, perform,
}
use rive_cpp_legacy.Importers.Stack.Entries.{
  Entries, lookup, remove, objects_of, AreDistinct, lookup_removed, lookup_kept, lookup-append,
  remove-AreDistinct, fresh_key, append-AreDistinct, objects_of-append, erase-objects_of,
  objects_of-remove,
}
use rive_cpp_legacy.Importers.Stack.Promised.{
  put, replace, promised, Represents, resolve_loop-newest, null_loop-newest,
}

module _ {World : Type 0} (objects : Objects World) where
  open objects use {resolve_object, reads_null}

  -- The object that is added, if any, is not on the stack yet.
  abbrev pub IsNew : Option ℕ → Entries → Type 0
  IsNew none entries = Unit
  IsNew (some o) entries = All (λ x. x ≢ o) (objects_of entries)

  abbrev pub IsAllowed : Call objects → Entries → Type 0
  IsAllowed (Call.find_latest key) entries = Unit
  IsAllowed (Call.make key added) entries = IsNew added entries
  IsAllowed Call.resolve_all entries = Unit
  IsAllowed Call.read_null entries = Unit

  -- The result of a call, beside the entries and the world that are promised.
  abbrev pub Agrees : {A : Type 0} → A × ImportStack World → A × (Entries × World) → Type 0
  Agrees (a, s) (b, (entries, world)) = (a ≡ b) × Represents objects s entries × (s.world ≡ world)

  place-Represents :
      (key : ℕ) (added : Option ℕ) (s : ImportStack World) (entries : Entries)
      → s.last_added ≡ objects_of entries
      → ((x : ℕ) → (if x == key then none else s.latests x) ≡ lookup x entries)
      → AreDistinct entries
      → lookup key entries ≡ none
      → IsNew added entries
      → Agrees (place objects key added s) (StatusCode.ok, (put key added entries, s.world))
  unfolding place
  place-Represents key none s entries same latests d absent new = (refl, (same, latests, d), refl)
  place-Represents key (some o) s entries same latests d absent new = (
    refl,
    (
      ap (λ os. os ++ o ∷ []) same ∙ sym (objects_of-append entries key o),
      (λ x. added_latest x),
      append-AreDistinct key o entries (fresh_key key o entries absent new) d,
    ),
    refl,
  )
    where
      added_latest :
          (x : ℕ) → (if x == key then some o else s.latests x) ≡ lookup x (entries ++ (key, o) ∷ [])
      added_latest x = elim (Bool-cases (x == key)) [
        | inl here ↦ rw (lookup-append x key o entries absent, here) refl
        | inr other ↦
            rw (lookup-append x key o entries absent, other)
              (subst (λ b. (if b then none else s.latests x) ≡ lookup x entries) other (latests x))
      ]

  IsNew-remove :
      (key : ℕ) (added : Option ℕ) (entries : Entries)
      → IsNew added entries
      → IsNew added (remove key entries)
  IsNew-remove key none entries new = tt
  IsNew-remove key (some o) entries new = objects_of-remove (λ x. x ≢ o) key entries new

  is_ok-true : (code : StatusCode) → is_ok code ≡ true → StatusCode.ok ≡ code
  is_ok-true StatusCode.ok e = refl
  is_ok-true StatusCode.missing_object e = cc
  is_ok-true StatusCode.invalid_object e = cc
  is_ok-true StatusCode.failed_inversion e = cc

  make_latest_first :
      (key : ℕ) (added : Option ℕ) (s : ImportStack World)
      → s.latests key ≡ none
      → make_latest objects key added s ≡ place objects key added s
  unfolding make_latest
  make_latest_first key added s e = rw (e, make_latest) refl

  -- What is left when the old object of a key has been resolved.
  abbrev resolved : ℕ → ImportStack World → ImportStack World
  resolved old s = record s {
    last_added = erase_first old s.last_added;
    world = (resolve_object old s.world).1;
  }

  make_latest_again :
      (key old : ℕ) (added : Option ℕ) (s : ImportStack World)
      → s.latests key ≡ some old
      → is_ok (resolve_object old s.world).0 ≡ true
      → make_latest objects key added s ≡ place objects key added (resolved old s)
  unfolding make_latest
  make_latest_again key old added s e fine = rw (e, make_latest, fine) refl

  make_latest_failed :
      (key old : ℕ) (added : Option ℕ) (s : ImportStack World)
      → s.latests key ≡ some old
      → is_ok (resolve_object old s.world).0 ≡ false
      → make_latest objects key added s
        ≡ ((resolve_object old s.world).0, set_latest objects key none (resolved old s))
  unfolding make_latest
  make_latest_failed key old added s e failed = rw (e, make_latest, failed) refl

  latests_removed :
      (key : ℕ) (latests : ℕ → Option ℕ) (entries : Entries)
      → ((x : ℕ) → latests x ≡ lookup x entries)
      → AreDistinct entries
      → (x : ℕ) → (if x == key then none else latests x) ≡ lookup x (remove key entries)
  latests_removed key latests entries same d x = elim (Bool-cases (x == key)) [
    | inl here ↦
        rw ((==_iff x key).0 here, (==_iff key key).1 refl) (sym (lookup_removed key entries d))
    | inr other ↦ rw other (same x ∙ sym (lookup_kept key x entries (apart other)))
  ]
    where
      apart : (x == key) ≡ false → x ≢ key
      apart other e = ground (arith, other, e)

  replace_first :
      (key : ℕ) (added : Option ℕ) (entries : Entries) (world : World)
      → lookup key entries ≡ none
      → replace objects key added entries world ≡ (StatusCode.ok, (put key added entries, world))
  unfolding replace
  replace_first key added entries world e = rw (e, replace) refl

  replace_again :
      (key old : ℕ) (added : Option ℕ) (entries : Entries) (world : World)
      → lookup key entries ≡ some old
      → is_ok (resolve_object old world).0 ≡ true
      → replace objects key added entries world
        ≡ (StatusCode.ok, (put key added (remove key entries), (resolve_object old world).1))
  unfolding replace
  replace_again key old added entries world e fine =
      rw (e, replace, fine)
        (ap (λ code. (code, (put key added (remove key entries), (resolve_object old world).1)))
          (sym (is_ok-true (resolve_object old world).0 fine)))

  replace_failed :
      (key old : ℕ) (added : Option ℕ) (entries : Entries) (world : World)
      → lookup key entries ≡ some old
      → is_ok (resolve_object old world).0 ≡ false
      → replace objects key added entries world
        ≡ ((resolve_object old world).0, (remove key entries, (resolve_object old world).1))
  unfolding replace
  replace_failed key old added entries world e failed = rw (e, replace, failed) refl

  pub make_latest-Agrees :
      (key : ℕ) (added : Option ℕ) (s : ImportStack World) (entries : Entries)
      → Represents objects s entries
      → IsNew added entries
      → Agrees (make_latest objects key added s) (replace objects key added entries s.world)
  make_latest-Agrees key added s entries (order, same, d) new =
      elim (Option-cases (lookup key entries)) [
        | inl absent ↦
            rw
              (
                make_latest_first key added s (same key ∙ absent),
                replace_first key added entries s.world absent,
              )
              (place-Represents key added s entries order (without absent) d absent new)
        | inr (old, here) ↦
            let erased : erase_first old s.last_added ≡ objects_of (remove key entries) =
              ap (λ os. erase_first old os) order ∙ erase-objects_of key old entries d here in
            let distinct = remove-AreDistinct key entries d in
            let removed = latests_removed key s.latests entries same d in
            elim (Bool-cases (is_ok (resolve_object old s.world).0)) [
              | inl fine ↦
                  rw
                    (
                      make_latest_again key old added s (same key ∙ here) fine,
                      replace_again key old added entries s.world here fine,
                    )
                    (place-Represents key added (resolved old s) (remove key entries) erased removed
                      distinct (lookup_removed key entries d) (IsNew-remove key added entries new))
              | inr failed ↦
                  rw
                    (
                      make_latest_failed key old added s (same key ∙ here) failed,
                      replace_failed key old added entries s.world here failed,
                    )
                    (refl, (erased, removed, distinct), refl)
            ]
      ]
    where
      without :
          lookup key entries ≡ none
          → (x : ℕ) → (if x == key then none else s.latests x) ≡ lookup x entries
      without absent x = elim (Bool-cases (x == key)) [
        | inl here ↦ rw ((==_iff x key).0 here, (==_iff key key).1 refl) (sym absent)
        | inr other ↦ rw other (same x)
      ]

  -- An ImportStack answers each call like the sequence of its entries in the order of their adding,
  -- with the objects' own calls in the same order, and stands for the sequence that the call
  -- leaves, where an added object is not on the stack yet. So m_lastAdded names exactly the objects
  -- that m_latests owns, each once.
  pub perform-Represents :
      (call : Call objects) (s : ImportStack World) (entries : Entries)
      → Represents objects s entries
      → IsAllowed call entries
      → Agrees (perform objects call s) (promised objects call entries s.world)
  unfolding perform latest resolve read_null_object promised
  perform-Represents (Call.find_latest key) s entries (order, same, d) allowed =
      (ap (λ o. Answer.object o) (same key), (order, same, d), refl)
  perform-Represents (Call.make key added) s entries valid allowed =
      let (code, valid', world') = make_latest-Agrees key added s entries valid allowed in
      (ap (λ c. Answer.status c) code, valid', world')
  perform-Represents Call.resolve_all s entries (order, same, d) allowed =
      let e =
        ap (λ os. resolve_loop objects (backwards os) s.world) order
        ∙ resolve_loop-newest objects entries s.world in
      (ap (λ r. Answer.status r.0) e, (refl, (λ x. refl), tt), ap (λ r. r.1) e)
  perform-Represents Call.read_null s entries (order, same, d) allowed =
      let e =
        ap (λ os. null_loop objects (backwards os) s.world) order
        ∙ null_loop-newest objects entries s.world in
      (ap (λ r. Answer.was_read r.0) e, (order, same, d), ap (λ r. r.1) e)
