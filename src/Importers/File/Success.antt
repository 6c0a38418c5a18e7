-- ===== src/Importers/File/Success.antt =====
-- What File::import (src/file.cpp) has read where it succeeds.
use rive_cpp_legacy.Prelude.{
  ℕ, zero, suc, ◌≡◌, refl, subst, Bool, true, false, not, List, Option, arith, length,
}
use rive_cpp_legacy.Core.Reader.{Reader, reader, has_error, reached_end}
use rive_cpp_legacy.Importers.Header.{Header, Result, undefined, done, and_then, read}
use rive_cpp_legacy.Importers.Header.Leads.{Leads, and_then-Leads, if-Leads, any-Leads}
use rive_cpp_legacy.Importers.Stack.{is_ok, Objects, resolve}
use rive_cpp_legacy.Importers.File.{Runtime, read_runtime_object}
use rive_cpp_legacy.Importers.File.Read.{
  ImportResult, Import, Outcome, undefined_there, fails, goes_on, set_world, handle, read_loop,
  read_file, new_import, is_major, if_success, import_file,
}

module _ {World : Type 0} (runtime : Runtime World) (objects : Objects World) (big : Bool) where
  abbrev EndsThere : Bool × Import World → Reader → Type 0
  EndsThere (ended, s) t = ended ≡ true → reached_end t ≡ true

  handled :
      (o : Outcome World) (t : Reader) (y : Import World → Result (Bool × Import World))
      → ((s : Import World) → Leads Unit EndsThere (y s))
      → Leads Unit EndsThere
          (elim o [ undefined_there ↦ undefined | fails s ↦ done (false, s) t | goes_on s ↦ y s ])
  handled undefined_there t y k = tt
  handled (fails s) t y k = λ e. cc
  handled (goes_on s) t y k = k s

  read_loop-EndsThere :
      (header : Header) (key_fuel fuel : ℕ) (s : Import World) (r : Reader)
      → Leads Unit EndsThere (read_loop runtime objects big header key_fuel fuel s r)
  unfolding read_loop
  read_loop-EndsThere header key_fuel zero s r = tt
  read_loop-EndsThere header key_fuel (suc fuel) s r =
      if-Leads Unit EndsThere (reached_end r) _ _ (λ e e'. e)
        (λ e.
          and_then-Leads Unit (λ a t. Unit) EndsThere
            (read_runtime_object runtime big header key_fuel s.stack.world r) _
            (any-Leads (read_runtime_object runtime big header key_fuel s.stack.world r))
            (λ (o, w) t u.
              handled (handle runtime objects o (set_world w s)) t _
                (λ s'. read_loop-EndsThere header key_fuel fuel s' t)))

  -- The reader is at the buffer's end, with no error.
  abbrev pub IsRead : Reader → Type 0
  IsRead t = (t.position ≡ length t.bytes) × (has_error t ≡ false)

  ends_there : (t : Reader) → reached_end t ≡ true → has_error t ≡ false → IsRead t
  unfolding reached_end has_error
  ends_there t e fine = ground (arith, e, fine)

  abbrev ReadAll : {A : Type 0} → ImportResult × A → Reader → Type 0
  ReadAll (result, s) t = result ≡ ImportResult.success → IsRead t

  not_success : {A : Type 0} → ImportResult.malformed ≡ ImportResult.success → A
  not_success e = cc

  not_success' : {A : Type 0} → ImportResult.unsupported_version ≡ ImportResult.success → A
  not_success' e = cc

  read_file-ReadAll :
      (header : Header) (key_fuel fuel : ℕ) (s : Import World) (r : Reader)
      → Leads Unit ReadAll (read_file runtime objects big header key_fuel fuel s r)
  unfolding read_file
  read_file-ReadAll header key_fuel fuel s r =
      and_then-Leads Unit EndsThere ReadAll (read_loop runtime objects big header key_fuel fuel s r)
        _ (read_loop-EndsThere header key_fuel fuel s r)
        (λ (ended, s') t there.
          if-Leads Unit ReadAll (not ended) _ _ (λ e. not_success)
            (λ yes.
              if-Leads Unit ReadAll (has_error t) _ _ (λ e. not_success)
                (λ fine.
                  if-Leads Unit ReadAll (is_ok (resolve objects s'.stack).0) _ _
                    (λ e e'. ends_there t (there (not_false yes)) fine) (λ e. not_success))))
    where
      not_false : {b : Bool} → not b ≡ false → b ≡ true
      not_false {b = true} e = refl
      not_false {b = false} e = cc

  if_success-ReadAll :
      (o : ImportResult × Import World) (t : Reader)
      → ReadAll o t
      → ReadAll (if_success runtime objects o) t
  if_success-ReadAll (ImportResult.success, s) t h = h
  if_success-ReadAll (ImportResult.unsupported_version, s) t h = h
  if_success-ReadAll (ImportResult.malformed, s) t h = h

  import_file-ReadAll :
      (fuel : ℕ) (bytes : List ℕ) (w : World)
      → Leads Unit ReadAll (import_file runtime objects big fuel bytes w)
  unfolding import_file
  import_file-ReadAll fuel bytes w =
      and_then-Leads Unit (λ a t. Unit) ReadAll (read big fuel _ (reader bytes)) _
        (any-Leads (read big fuel _ (reader bytes)))
        (λ (good, header) r u.
          if-Leads Unit ReadAll (not good) _ _ (λ e. not_success)
            (λ e.
              if-Leads Unit ReadAll (not (is_major runtime objects header.major_version)) _ _
                (λ e. not_success') (λ e. rest header r)))
    where
      rest :
          (header : Header) (r : Reader)
          → Leads Unit ReadAll (
              and_then
                (read_file runtime objects big header fuel fuel (new_import runtime objects w) r)
                (λ o t. done (if_success runtime objects o) t))
      rest header r =
          and_then-Leads Unit ReadAll ReadAll
            (read_file runtime objects big header fuel fuel (new_import runtime objects w) r) _
            (read_file-ReadAll header fuel fuel (new_import runtime objects w) r)
            (λ o t h. if_success-ReadAll o t h)

  -- File::import succeeds only where its reader has come to the buffer's end with no error.
  pub import_file_success :
      (fuel : ℕ) (bytes : List ℕ) (w : World) (file : Option (Import World)) (r : Reader)
      → import_file runtime objects big fuel bytes w ≡ done (ImportResult.success, file) r
      → IsRead r
  import_file_success fuel bytes w file r e =
      subst (λ m. Leads Unit ReadAll m) e (import_file-ReadAll fuel bytes w) refl
