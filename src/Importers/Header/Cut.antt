-- ===== src/Importers/Header/Cut.antt =====
-- RuntimeHeader::read (include/rive/runtime_header.hpp) on a buffer that ends before the keys.
use rive_cpp_legacy.Prelude.{
  ℕ, suc, ◌^◌, ◌<◌, ◌≡◌, refl, sym, ap, subst, ◌∙◌, Bool, true, false, List, [], ◌++◌, some,
}
use mathlib.Core.List.{append_assoc, append-nil}
use rive_cpp_legacy.Prelude.Int.{ℤ, pos}
use rive_cpp_legacy.Core.Leb.{write_var_uint}
use rive_cpp_legacy.Core.Reader.{Reader, reader, overflow, read_byte, read_var_uint_as, as_int}
use rive_cpp_legacy.Core.Reader.Behind.{
  behind, read_var_uint_as_end, read_var_uint_as-write_var_uint,
}
use rive_cpp_legacy.Importers.Header.{
  Header, Result, done, and_then, returned, fingerprint, fingerprint_loop, key_loop, field_loop,
  version, read_fields, read,
}

version_step :
    (put : ℤ → Header → Header) (next : Header → Reader → Result (Bool × Header)) (h : Header)
    (r s : Reader) (v : ℤ)
    → read_var_uint_as as_int r ≡ some (v, s)
    → s.overflowed ≡ false
    → version put next h r ≡ next (put v h) s
unfolding and_then returned
version_step put next h r s v e fine = rw (e, fine) refl

keys_cut :
    (fuel : ℕ) (h : Header) (big : Bool) (all : List ℕ)
    → read_fields big (suc fuel) h (behind all all) ≡ done (true, h) (overflow (behind all all))
unfolding key_loop and_then returned field_loop
keys_cut fuel h big all = rw (read_var_uint_as_end as_int all) refl

fingerprint_read :
    {B : Type 0} (rest : List ℕ) (next : Bool → Reader → Result B)
    → and_then (fingerprint_loop fingerprint (reader (fingerprint ++ rest))) next
      ≡ next true (behind (fingerprint ++ rest) fingerprint)
unfolding fingerprint_loop and_then returned read_byte reader
fingerprint_read rest next = refl

-- A buffer that ends behind the fingerprint and the three numbers, before the keys and the 0 that
-- ends them, is accepted: `read` returns true, although the reader has overflowed.
pub read_cut :
    (big : Bool) (fuel : ℕ) (h : Header) (major minor file : ℕ) (a b c : List ℕ)
    → major < 2 ^ 31
    → minor < 2 ^ 31
    → file < 2 ^ 31
    → write_var_uint major ≡ some a
    → write_var_uint minor ≡ some b
    → write_var_uint file ≡ some c
    → (s : Reader) × (read big (suc fuel) h (reader (fingerprint ++ (a ++ (b ++ c))))
        ≡ done
            (
              true,
              record h { major_version = pos major; minor_version = pos minor; file_id = pos file },
            )
            s)
      × (s.overflowed ≡ true)
unfolding read overflow
read_cut big fuel h major minor file a b c h1 h2 h3 e1 e2 e3 =
    let all = fingerprint ++ (a ++ (b ++ c)) in
    let f1 = fingerprint ++ a in
    let f2 = f1 ++ b in
    let f3 = f2 ++ c in
    let whole2 : all ≡ f1 ++ (b ++ c) = sym (append_assoc fingerprint a (b ++ c)) in
    let whole3 : all ≡ f2 ++ c = whole2 ∙ sym (append_assoc f1 b c) in
    let put1 : ℤ → Header → Header = λ v k. record k { major_version = v } in
    let put2 : ℤ → Header → Header = λ v k. record k { minor_version = v } in
    let put3 : ℤ → Header → Header = λ v k. record k { file_id = v } in
    let fields = read_fields big (suc fuel) in
    let k1 = record h { major_version = pos major } in
    let k2 = record k1 { minor_version = pos minor } in
    let k3 = record k2 { file_id = pos file } in
    (
      overflow (behind all all),
      fingerprint_read (a ++ (b ++ c)) _
          ∙ version_step put1 (version put2 (version put3 fields)) h (behind all fingerprint)
              (behind all f1) (pos major)
              (read_var_uint_as-write_var_uint as_int all fingerprint a (b ++ c) major h1 e1 refl)
              refl
          ∙ version_step put2 (version put3 fields) k1 (behind all f1) (behind all f2) (pos minor)
              (read_var_uint_as-write_var_uint as_int all f1 b c minor h2 e2 whole2) refl
          ∙ version_step put3 fields k2 (behind all f2) (behind all f3) (pos file)
              (read_var_uint_as-write_var_uint as_int all f2 c [] file h3 e3
                (whole3 ∙ ap (λ l. f2 ++ l) (sym (append-nil c))))
              refl
          ∙ subst
              (λ l.
                read_fields big (suc fuel) k3 (behind all l)
                ≡ done (true, k3) (overflow (behind all all)))
              whole3 (keys_cut fuel k3 big all),
      refl,
    )
