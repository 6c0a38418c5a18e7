-- ===== src/Importers/Stack.antt =====
-- ImportStack (include/rive/importers/import_stack.hpp). An object on the stack is its pointer, a
-- number, and m_latests, of which only single keys are read or written, a function. The objects'
-- `resolve` and `readNullObject` are virtual: they are parameters, and may change the `World`.
pub mod Entries
pub mod Promised
pub mod Refines
use rive_cpp_legacy.Prelude.{
  ℕ, Bool, true, false, List, [], ◌∷◌, ◌++◌, Option, none, some, if◌then◌else◌, ◌==◌,
}

pub data StatusCode : Type 0 where
  ok : StatusCode
  missing_object : StatusCode
  invalid_object : StatusCode
  failed_inversion : StatusCode

abbrev pub is_ok : StatusCode → Bool
is_ok StatusCode.ok = true
is_ok StatusCode.missing_object = false
is_ok StatusCode.invalid_object = false
is_ok StatusCode.failed_inversion = false

-- From `rbegin` to `rend`.
unfoldable pub backwards : List ℕ → List ℕ
backwards [] = []
backwards (x ∷ xs) = backwards xs ++ x ∷ []

-- `std::find` and `erase` of what it found.
unfoldable pub erase_first : ℕ → List ℕ → List ℕ
erase_first x [] = []
erase_first x (y ∷ ys) = if y == x then ys else y ∷ erase_first x ys

pub record ImportStack (World : Type 0) : Type 0 where
  pub latests : ℕ → Option ℕ
  pub last_added : List ℕ
  pub world : World

pub record Objects (World : Type 0) : Type 0 where
  pub resolve_object : ℕ → World → StatusCode × World
  pub reads_null : ℕ → World → Bool × World

module _ {World : Type 0} (objects : Objects World) where
  open objects use {resolve_object, reads_null}

  abbrev Stack : Type 0
  Stack = ImportStack World

  unfoldable pub latest : ℕ → Stack → Option ℕ
  latest core_type s = s.latests core_type

  abbrev pub set_latest : ℕ → Option ℕ → Stack → Stack
  set_latest core_type object s = record s {
    latests = λ key. if key == core_type then object else s.latests key;
  }

  -- `makeLatest` from "Set the new one" on.
  unfoldable pub place : ℕ → Option ℕ → Stack → StatusCode × Stack
  place core_type none s = (StatusCode.ok, set_latest core_type none s)
  place core_type (some object) s = (
    StatusCode.ok,
    set_latest core_type (some object) (record s { last_added = s.last_added ++ object ∷ [] }),
  )

  unfoldable pub make_latest : ℕ → Option ℕ → Stack → StatusCode × Stack
  unfolding place erase_first
  make_latest core_type object s = elim (s.latests core_type) [
    | none ↦ place core_type object s
    | some old ↦
        let (code, world') = resolve_object old s.world in
        let s' = record s { last_added = erase_first old s.last_added; world = world' } in
        if is_ok code then place core_type object s' else (code, set_latest core_type none s')
  ]

  unfoldable pub resolve_loop : List ℕ → World → StatusCode × World
  resolve_loop [] world = (StatusCode.ok, world)
  resolve_loop (x ∷ xs) world =
      let (code, world') = resolve_object x world in
      let rest = resolve_loop xs world' in if is_ok code then rest else (code, world')

  unfoldable pub resolve : Stack → StatusCode × Stack
  unfolding resolve_loop backwards
  resolve s =
      let (code, world') = resolve_loop (backwards s.last_added) s.world in
      (code, record { latests = λ key. none; last_added = []; world = world' })

  unfoldable pub null_loop : List ℕ → World → Bool × World
  null_loop [] world = (false, world)
  null_loop (x ∷ xs) world =
      let (found, world') = reads_null x world in
      let rest = null_loop xs world' in if found then (true, world') else rest

  unfoldable pub read_null_object : Stack → Bool × Stack
  unfolding null_loop backwards
  read_null_object s =
      let (found, world') = null_loop (backwards s.last_added) s.world in
      (found, record s { world = world' })

  pub data Call : Type 0 where
    find_latest : ℕ → Call
    make : ℕ → Option ℕ → Call
    resolve_all : Call
    read_null : Call

  pub data Answer : Type 0 where
    object : Option ℕ → Answer
    status : StatusCode → Answer
    was_read : Bool → Answer

  unfoldable pub perform : Call → Stack → Answer × Stack
  unfolding latest make_latest resolve read_null_object
  perform (find_latest core_type) s = (object (latest core_type s), s)
  perform (make core_type added) s =
      let (code, s') = make_latest core_type added s in (status code, s')
  perform resolve_all s = let (code, s') = resolve s in (status code, s')
  perform read_null s = let (found, s') = read_null_object s in (was_read found, s')
