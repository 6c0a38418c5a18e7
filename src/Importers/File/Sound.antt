-- ===== src/Importers/File/Sound.antt =====
-- What one round of File::read (src/file.cpp) keeps of its stack of importers.
use rive_cpp_legacy.Prelude.{
  ℕ, suc, ◌+◌, ◌≡◌, refl, sym, ap, ◌∙◌, inl, inr, true, not, List, Option, none, some, arith,
  Option-cases, ◌==◌, ltb, if◌then◌else◌, contains, get_elem?, count,
}
use rive_cpp_legacy.Importers.Stack.{is_ok, ImportStack, Objects, make_latest, read_null_object}
use rive_cpp_legacy.Importers.Stack.Entries.{Entries, objects_of}
use rive_cpp_legacy.Importers.Stack.Promised.{replace, Represents}
use rive_cpp_legacy.Importers.Stack.Refines.{IsNew, make_latest-Agrees}
use rive_cpp_legacy.Importers.File.{Runtime}
use rive_cpp_legacy.Importers.File.Good.{Good, and_next-Good, if-Good}
use rive_cpp_legacy.Importers.File.Logged.{logged_objects, logged, read_null_object_log}
use rive_cpp_legacy.Importers.File.Resolved.{added_list, count-fresh, replace-count}
use rive_cpp_legacy.Importers.File.Types.{
  Choice, no_importer, importer, importer_of, importer_for, artboard, backboard, view_model,
  data_enum, view_model_property_enum, asset_types,
}
use rive_cpp_legacy.Importers.File.Read.{
  Import, undefined_there, goes_on, set_world, bind_target, register, put_latest, put_importer,
  put_chosen, put_component, place_object, handle_object, handle,
}

abbrev pub once : ℕ → ℕ → ℕ
once n g = if ltb g n then 1 else 0

module _ {World : Type 0} (runtime : Runtime World) (objects : Objects World) where
  abbrev pub Logs : Type 0
  Logs = Import (World × List ℕ)

  -- Of the first `n` importers each is either on the stack or was resolved once, and no other is.
  abbrev pub Counts : ℕ → ImportStack (World × List ℕ) → Type 0
  Counts n stack =
      (entries : Entries) × Represents (logged_objects objects) stack entries
      × ((g : ℕ) → count g stack.world.1 + count g (objects_of entries) ≡ once n g)

  abbrev pub IsSound : Logs → Type 0
  IsSound s = Counts s.importers s.stack

  -- The world changes, but nothing is written down.
  pub set_world-Counts :
      (n : ℕ) (w : World × List ℕ) (s : Logs)
      → w.1 ≡ s.stack.world.1
      → Counts n s.stack
      → Counts n (set_world w s).stack
  set_world-Counts n w s same (entries, represents, counts) =
      (entries, represents, λ g. rw same (counts g))

  added-IsNew :
      (n : ℕ) (stack : ImportStack (World × List ℕ)) (h : Counts n stack)
      → IsNew (logged_objects objects) (some n) h.0
  added-IsNew n stack (entries, represents, counts) =
      count-fresh n (objects_of entries) (ground (arith, counts n))

  -- `makeLatest` of nothing, or of the next importer.
  Counts-make_latest :
      (n m type : ℕ) (added : Option ℕ) (stack : ImportStack (World × List ℕ)) (h : Counts n stack)
      → IsNew (logged_objects objects) added h.0
      → ((g : ℕ) → once n g + count g (added_list added) ≡ once m g)
      → is_ok (make_latest (logged_objects objects) type added stack).0 ≡ true
      → Counts m (make_latest (logged_objects objects) type added stack).1
  Counts-make_latest n m type added stack (entries, represents, counts) new more fine =
      let (code, represents', world) =
        make_latest-Agrees (logged_objects objects) type added stack entries represents new in
      let r = replace (logged_objects objects) type added entries stack.world in
      (
        r.1.0,
        represents',
        λ g.
            ap (λ (w : World × List ℕ). count g w.1 + count g (objects_of r.1.0)) world
            ∙ replace-count objects g type added entries stack.world (ap is_ok (sym code) ∙ fine)
            ∙ ap (λ k. k + count g (added_list added)) (counts g)
            ∙ more g,
      )

  put_latest_none :
      (type : ℕ) (s : Logs)
      → IsSound s
      → Good IsSound (put_latest (logged runtime) (logged_objects objects) type none s)
  unfolding put_latest
  put_latest_none type s h =
      if-Good IsSound (is_ok (make_latest (logged_objects objects) type none s.stack).0) _ _
        (λ fine.
          Counts-make_latest s.importers s.importers type none s.stack h tt (λ g. omega arith) fine)
        (λ failed. tt)

  put_latest_next :
      (n type : ℕ) (s : Logs)
      → s.importers ≡ suc n
      → Counts n s.stack
      → Good IsSound (put_latest (logged runtime) (logged_objects objects) type (some n) s)
  unfolding put_latest
  put_latest_next n type s e h =
      if-Good IsSound (is_ok (make_latest (logged_objects objects) type (some n) s.stack).0) _ _
        (λ fine.
          Counts-make_latest n s.importers type (some n) s.stack h (added-IsNew n s.stack h)
            (λ g. rw e (ground arith)) fine)
        (λ failed. tt)

  put_importer-IsSound :
      (type o : ℕ) (parent : Option ℕ) (s : Logs)
      → IsSound s
      → Good IsSound (put_importer (logged runtime) (logged_objects objects) type o parent s)
  unfolding put_importer
  put_importer-IsSound type o parent s h = put_latest_next s.importers type _ refl (
      set_world-Counts s.importers
        (runtime.make_importer s.importers o parent s.stack.world.0, s.stack.world.1)
        (record s { importers = suc s.importers }) refl h)

  put_chosen-IsSound :
      (choice : Choice) (o : ℕ) (s : Logs)
      → IsSound s
      → Good IsSound (put_chosen (logged runtime) (logged_objects objects) choice o s)
  unfolding put_chosen
  put_chosen-IsSound no_importer o s h = put_latest_none _ s h
  put_chosen-IsSound (importer type) o s h = put_importer-IsSound type o none s h
  put_chosen-IsSound (importer_of type parent_type) o s h =
      elim (Option-cases (s.stack.latests parent_type)) [
        | inl absent ↦ rw (absent, put_chosen) tt
        | inr (parent, here) ↦ rw (here, put_chosen) (put_importer-IsSound type o (some parent) s h)
      ]

  put_component-IsSound :
      (o : ℕ) (s : Logs)
      → IsSound s
      → Good IsSound (put_component (logged runtime) (logged_objects objects) o s)
  unfolding put_component
  put_component-IsSound o s h =
      if-Good IsSound (runtime.is_layer_component o s.stack.world.0) _ _
        (λ e. put_latest_next s.importers _ _ refl (
          set_world-Counts s.importers
            (runtime.make_component_importer s.importers o s.stack.world.0, s.stack.world.1)
            (record s { importers = suc s.importers }) refl h))
        (λ e. h)

  bind_target-IsSound :
      (o : ℕ) (s : Logs)
      → IsSound s
      → Good IsSound (bind_target (logged runtime) (logged_objects objects) o s)
  unfolding bind_target
  bind_target-IsSound o s h =
      if-Good IsSound (not (runtime.is_data_bind o s.stack.world.0)) _ _ (λ e. h)
        (λ e. elim (Option-cases s.last_bindable) [
          | inl never ↦ rw never tt
          | inr (last, here) ↦ rw here (
              set_world-Counts s.importers
                (runtime.set_target o last s.stack.world.0, s.stack.world.1) s refl h)
        ])

  register-IsSound :
      (o : ℕ) (s : Logs)
      → IsSound s
      → Good IsSound (register (logged runtime) (logged_objects objects) o s)
  unfolding register
  register-IsSound o s h =
      let type = runtime.core_type o s.stack.world.0 in
      if-Good IsSound (type == backboard) _ _ (λ e. h)
        (λ e.
          if-Good IsSound (type == artboard) _ _ (λ e. h)
            (λ e.
              if-Good IsSound (contains asset_types type) _ _ (λ e. h)
                (λ e.
                  if-Good IsSound (type == view_model) _ _ (λ e. h)
                    (λ e.
                      if-Good IsSound (type == data_enum) _ _ (λ e. h)
                        (λ e.
                          if-Good IsSound (type == view_model_property_enum) _ _ (λ e. found)
                            (λ e. h))))))
    where
      found : Good IsSound (elim (get_elem? s.enums (runtime.enum_id o s.stack.world.0)) [
        | none ↦ undefined_there
        | some e ↦
            goes_on (set_world (runtime.set_data_enum o e s.stack.world.0, s.stack.world.1) s)
      ])
      found = elim (Option-cases (get_elem? s.enums (runtime.enum_id o s.stack.world.0))) [
        | inl absent ↦ rw absent tt
        | inr (e, here) ↦ rw here h
      ]

  place_object-IsSound :
      (o : ℕ) (s : Logs)
      → IsSound s
      → Good IsSound (place_object (logged runtime) (logged_objects objects) o s)
  unfolding place_object
  place_object-IsSound o s h =
      and_next-Good IsSound IsSound (register (logged runtime) (logged_objects objects) o s) _
        (register-IsSound o s h)
        (λ t k.
          let choice = importer_for (runtime.core_type o t.stack.world.0) in
          and_next-Good IsSound IsSound
            (put_chosen (logged runtime) (logged_objects objects) choice o t) _
            (put_chosen-IsSound choice o t k) (λ u l. put_component-IsSound o u l))

  handle_object-IsSound :
      (o : ℕ) (s : Logs)
      → IsSound s
      → Good IsSound (handle_object (logged runtime) (logged_objects objects) o s)
  unfolding handle_object
  handle_object-IsSound o s h =
      and_next-Good IsSound IsSound (bind_target (logged runtime) (logged_objects objects) o s) _
        (bind_target-IsSound o s h)
        (λ t k.
          let (code, w) = runtime.import_object o t.stack.latests t.stack.world.0 in
          let log = t.stack.world.1 in
          if-Good IsSound (is_ok code) _ _
            (λ e.
              place_object-IsSound o (set_world (w, log) t)
                (set_world-Counts t.importers (w, log) t refl k))
            (λ e. set_world-Counts t.importers (runtime.destroy o w, log) t refl k))

  pub handle-IsSound :
      (object : Option ℕ) (s : Logs)
      → IsSound s
      → Good IsSound (handle (logged runtime) (logged_objects objects) object s)
  unfolding handle read_null_object
  handle-IsSound none s (entries, represents, counts) =
      (entries, represents, λ g. rw (read_null_object_log objects s.stack) (counts g))
  handle-IsSound (some o) s h = handle_object-IsSound o s h
