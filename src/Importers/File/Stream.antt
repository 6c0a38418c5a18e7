-- ===== src/Importers/File/Stream.antt =====
-- File::read (src/file.cpp) on objects that stand one behind the other up to the buffer's end.
use rive_cpp_legacy.Prelude.{
  ℕ, zero, suc, ◌^◌, ◌<◌, ◌≡◌, refl, sym, ap, ◌∙◌, Bool, true, false, List, [], ◌∷◌, ◌++◌, Option,
  some, arith, length, length-append,
}
use mathlib.Core.List.{append_assoc, append-nil}
use rive_cpp_legacy.Prelude.Int.{pos}
use rive_cpp_legacy.Core.Leb.{write_var_uint}
use rive_cpp_legacy.Core.Reader.{has_error, reached_end}
use rive_cpp_legacy.Core.Reader.Behind.{behind}
use rive_cpp_legacy.Importers.Header.{Header, done, and_then}
use rive_cpp_legacy.Importers.Stack.{is_ok, Objects, resolve}
use rive_cpp_legacy.Importers.File.{Runtime}
use rive_cpp_legacy.Importers.File.Stored.{Properties}
use rive_cpp_legacy.Importers.File.Whole.{read_runtime_object_whole}
use rive_cpp_legacy.Importers.File.Read.{
  ImportResult, Import, goes_on, set_world, handle, read_loop, read_file,
}

module _ {World : Type 0} (runtime : Runtime World) (objects : Objects World) (big : Bool)
    (header : Header) (key_fuel : ℕ) where
  -- So many objects, and the rounds that take them in.
  pub data Stream : ℕ → List ℕ → Import World → Import World → Type 0 where
    no_more : (s : Import World) → Stream 0 [] s s
    one_more :
        (count n type : ℕ) (object : Option ℕ) (type_bytes bytes rest : List ℕ) (w w' : World)
        (s s' s'' : Import World)
        → type < 2 ^ 31
        → write_var_uint type ≡ some type_bytes
        → runtime.make_core_instance (pos type) s.stack.world ≡ (object, w)
        → Properties runtime big header object (0 ∷ []) n bytes w w'
        → n < key_fuel
        → handle runtime objects object (set_world w' s) ≡ goes_on s'
        → Stream count rest s' s''
        → Stream (suc count) ((type_bytes ++ bytes) ++ rest) s s''

  -- The 0 behind the properties is there.
  Properties-some :
      (object : Option ℕ) (n : ℕ) (bytes : List ℕ) (w w' : World)
      → Properties runtime big header object (0 ∷ []) n bytes w w'
      → 0 < length bytes
  Properties-some object _ _ _ _ (Properties.no_more w) = omega arith
  Properties-some object _ _ _ _
        (Properties.one_more n key key_bytes bytes rest w w' w'' positive h e1 property more) =
      omega (
        arith,
        Properties-some object n rest w' w'' more,
        length-append key_bytes (bytes ++ rest),
        length-append bytes rest,
      )

  at_end : (all front : List ℕ) → all ≡ front → reached_end (behind all front) ≡ true
  unfolding reached_end
  at_end all front e = ground (arith, ap length e)

  not_at_end :
      (all front : List ℕ) → length front < length all → reached_end (behind all front) ≡ false
  unfolding reached_end
  not_at_end all front h = ground (arith, h)

  read_loop-Stream :
      (count : ℕ) (bytes : List ℕ) (s s' : Import World)
      → Stream count bytes s s'
      → (fuel : ℕ) → count < fuel
      → (all front : List ℕ) → all ≡ front ++ bytes
      → read_loop runtime objects big header key_fuel fuel s (behind all front)
        ≡ done (true, s') (behind all all)
  unfolding read_loop and_then
  read_loop-Stream _ _ _ _ stream zero enough all front e = elim enough [ ]
  read_loop-Stream _ _ _ _ (Stream.no_more s) (suc fuel) enough all front e =
      let same : all ≡ front = e ∙ append-nil front in
      rw (at_end all front same) (ap (λ f. done (true, s) (behind all f)) (sym same))
  read_loop-Stream _ _ _ _
        (Stream.one_more count n type object type_bytes bytes rest w w' s s' s'' h e1 made
          properties keys handled more)
        (suc fuel) enough all front e =
      let here = type_bytes ++ bytes in
      let before : length front < length all = omega (
        arith,
        Properties-some object n bytes w w' properties,
        ap length e,
        length-append front (here ++ rest),
        length-append here rest,
        length-append type_bytes bytes,
      ) in
      let one =
        read_runtime_object_whole runtime big header n type object type_bytes bytes s.stack.world w
          w' h e1 made properties key_fuel keys all front rest e in
      rw (not_at_end all front before, one, and_then, handled)
        (read_loop-Stream count rest s' s'' more fuel (omega (arith, enough)) all (front ++ here)
          (e ∙ sym (append_assoc front here rest)))

  -- File::read takes whole objects in one after the other, each by one round, and succeeds where
  -- they end with the buffer, none of the rounds returns and the last `resolve` is ok.
  pub read_file-Stream :
      (count : ℕ) (bytes : List ℕ) (s s' : Import World)
      → Stream count bytes s s'
      → (fuel : ℕ) → count < fuel
      → is_ok (resolve objects s'.stack).0 ≡ true
      → (all front : List ℕ) → all ≡ front ++ bytes
      → read_file runtime objects big header key_fuel fuel s (behind all front)
        ≡ done
            (ImportResult.success, record s' { stack = (resolve objects s'.stack).1 })
            (behind all all)
  unfolding read_file and_then has_error
  read_file-Stream count bytes s s' stream fuel enough fine all front e =
      rw (read_loop-Stream count bytes s s' stream fuel enough all front e, and_then, fine) refl
