-- ===== src/Importers/File/Good.antt =====
-- What holds after a part of a round of File::read (src/file.cpp).
use rive_cpp_legacy.Prelude.{◌≡◌, refl, Bool, true, false, if◌then◌else◌}
use rive_cpp_legacy.Importers.File.Read.{Import, Outcome, undefined_there, fails, goes_on, and_next}

-- What holds if the round goes on.
abbrev pub Good : {World : Type 0} → (Import World → Type 0) → Outcome World → Type 0
Good P undefined_there = Unit
Good P (fails s) = Unit
Good P (goes_on s) = P s

pub and_next-Good :
    {World : Type 0} (P Q : Import World → Type 0) (o : Outcome World)
    (next : Import World → Outcome World)
    → Good P o
    → ((s : Import World) → P s → Good Q (next s))
    → Good Q (and_next o next)
and_next-Good P Q undefined_there next h k = tt
and_next-Good P Q (fails s) next h k = tt
and_next-Good P Q (goes_on s) next h k = k s h

pub if-Good :
    {World : Type 0} (P : Import World → Type 0) (b : Bool) (x y : Outcome World)
    → (b ≡ true → Good P x)
    → (b ≡ false → Good P y)
    → Good P (if b then x else y)
if-Good P true x y h k = h refl
if-Good P false x y h k = k refl
