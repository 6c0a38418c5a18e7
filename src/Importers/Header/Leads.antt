-- ===== src/Importers/Header/Leads.antt =====
-- What a call leads to when it returns (src/file.cpp and include/rive/runtime_header.hpp).
use rive_cpp_legacy.Prelude.{◌≡◌, refl, Bool, true, false, Option, none, some, if◌then◌else◌}
use rive_cpp_legacy.Core.Reader.{Reader}
use rive_cpp_legacy.Importers.Header.{Result, exhausted, undefined, done, and_then, returned}
use rive_cpp_legacy.Importers.Header.Ends.{Ends}

-- `P` of what it returns, and `X` where its fuel runs out.
abbrev pub Leads : {A : Type 0} → Type 0 → (A → Reader → Type 0) → Result A → Type 0
Leads X P exhausted = X
Leads X P undefined = Unit
Leads X P (done a r) = P a r

pub and_then-Leads :
    {A B : Type 0} (X : Type 0) (P : A → Reader → Type 0) (Q : B → Reader → Type 0) (m : Result A)
    (next : A → Reader → Result B)
    → Leads X P m
    → ((a : A) (s : Reader) → P a s → Leads X Q (next a s))
    → Leads X Q (and_then m next)
unfolding and_then
and_then-Leads X P Q exhausted next h k = h
and_then-Leads X P Q undefined next h k = tt
and_then-Leads X P Q (done a s) next h k = k a s h

pub returned-Leads :
    {A : Type 0} (X : Type 0) (P : A → Reader → Type 0) (o : Option (A × Reader))
    → ((a : A) (s : Reader) → o ≡ some (a, s) → P a s)
    → Leads X P (returned o)
unfolding returned
returned-Leads X P none h = tt
returned-Leads X P (some (a, s)) h = h a s refl

pub if-Leads :
    {A : Type 0} (X : Type 0) (P : A → Reader → Type 0) (b : Bool) (x y : Result A)
    → (b ≡ true → Leads X P x)
    → (b ≡ false → Leads X P y)
    → Leads X P (if b then x else y)
if-Leads X P true x y p q = p refl
if-Leads X P false x y p q = q refl

pub weaker-Leads :
    {A : Type 0} (X : Type 0) (P Q : A → Reader → Type 0) (m : Result A)
    → Leads X P m
    → ((a : A) (s : Reader) → P a s → Q a s)
    → Leads X Q m
weaker-Leads X P Q exhausted h k = h
weaker-Leads X P Q undefined h k = tt
weaker-Leads X P Q (done a s) h k = k a s h

pub Ends-Leads :
    {A : Type 0} (P : A → Reader → Type 0) (m : Result A) → Ends m → Leads Unit P m → Leads ⊥ P m
Ends-Leads P exhausted ends h = ends refl
Ends-Leads P undefined ends h = tt
Ends-Leads P (done a s) ends h = h

pub Leads-Ends : {A : Type 0} (P : A → Reader → Type 0) (m : Result A) → Leads ⊥ P m → Ends m
Leads-Ends P exhausted h e = h
Leads-Ends P undefined h e = cc
Leads-Ends P (done a s) h e = cc

-- Where nothing is asked of what it returns.
pub any-Leads : {A : Type 0} (m : Result A) → Leads Unit (λ a t. Unit) m
any-Leads exhausted = tt
any-Leads undefined = tt
any-Leads (done a t) = tt
