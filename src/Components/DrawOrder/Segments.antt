-- ===== src/Components/DrawOrder/Segments.antt =====
-- Doubly linked segments over the links of src/artboard.cpp's drawables.
use rive_cpp_legacy.Prelude.{
  ℕ, ◌≡◌, ◌≢◌, refl, sym, subst, ◌∙◌, List, [], ◌∷◌, ◌++◌, Option, none, some, ==_iff, arith, All,
  last_of,
}
use rive_cpp_legacy.Components.DrawOrder.{update}

abbrev pub head_or : Option ℕ → List ℕ → Option ℕ
head_or end [] = end
head_or end (x ∷ xs) = some x

-- From `p` on the links lead forth and back through the list, up to `end`.
abbrev pub Linked : (ℕ → Option ℕ) → (ℕ → Option ℕ) → Option ℕ → List ℕ → Option ℕ → Type 0
Linked prev next p [] end = Unit
Linked prev next p (x ∷ xs) end =
    (prev x ≡ p) × (next x ≡ head_or end xs) × Linked prev next (some x) xs end

abbrev pub Misses : ℕ → List ℕ → Type 0
Misses k xs = All (λ x. x ≢ k) xs

abbrev pub StandOnce : List ℕ → Type 0
StandOnce [] = Unit
StandOnce (x ∷ xs) = Misses x xs × StandOnce xs

pub update_ne : (f : ℕ → Option ℕ) (k x : ℕ) (v : Option ℕ) → x ≢ k → update f k v x ≡ f x
update_ne f k x v away = ground (arith, away, ==_iff x k)

pub update_eq : (f : ℕ → Option ℕ) (k : ℕ) (v : Option ℕ) → update f k v k ≡ v
update_eq f k v = rw ((==_iff k k).1 refl) refl

pub frame_prev :
    (prev next : ℕ → Option ℕ) (p : Option ℕ) (xs : List ℕ) (end : Option ℕ) (k : ℕ) (v : Option ℕ)
    → Misses k xs
    → Linked prev next p xs end
    → Linked (update prev k v) next p xs end
frame_prev prev next p [] end k v away l = tt
frame_prev prev next p (x ∷ xs) end k v (ne, away) (a, b, l) =
    (update_ne prev k x v ne ∙ a, b, frame_prev prev next (some x) xs end k v away l)

pub frame_next :
    (prev next : ℕ → Option ℕ) (p : Option ℕ) (xs : List ℕ) (end : Option ℕ) (k : ℕ) (v : Option ℕ)
    → Misses k xs
    → Linked prev next p xs end
    → Linked prev (update next k v) p xs end
frame_next prev next p [] end k v away l = tt
frame_next prev next p (x ∷ xs) end k v (ne, away) (a, b, l) =
    (a, update_ne next k x v ne ∙ b, frame_next prev next (some x) xs end k v away l)

pub head_or-append :
    (end : Option ℕ) (xs ys : List ℕ) → head_or end (xs ++ ys) ≡ head_or (head_or end ys) xs
head_or-append end [] ys = refl
head_or-append end (x ∷ xs) ys = refl

pub Linked-append :
    (prev next : ℕ → Option ℕ) (p : Option ℕ) (xs ys : List ℕ) (end : Option ℕ)
    → Linked prev next p xs (head_or end ys)
    → Linked prev next (last_of p xs) ys end
    → Linked prev next p (xs ++ ys) end
Linked-append prev next p [] ys end l m = m
Linked-append prev next p (x ∷ xs) ys end (a, b, l) m =
    (a, b ∙ sym (head_or-append end xs ys), Linked-append prev next (some x) xs ys end l m)

pub Linked-left :
    (prev next : ℕ → Option ℕ) (p : Option ℕ) (xs ys : List ℕ) (end : Option ℕ)
    → Linked prev next p (xs ++ ys) end
    → Linked prev next p xs (head_or end ys)
Linked-left prev next p [] ys end l = tt
Linked-left prev next p (x ∷ xs) ys end (a, b, l) =
    (a, b ∙ head_or-append end xs ys, Linked-left prev next (some x) xs ys end l)

pub Linked-right :
    (prev next : ℕ → Option ℕ) (p : Option ℕ) (xs ys : List ℕ) (end : Option ℕ)
    → Linked prev next p (xs ++ ys) end
    → Linked prev next (last_of p xs) ys end
Linked-right prev next p [] ys end l = l
Linked-right prev next p (x ∷ xs) ys end (a, b, l) = Linked-right prev next (some x) xs ys end l

-- The first of a segment gets another pointer back.
pub link_first :
    (prev next : ℕ → Option ℕ) (p : Option ℕ) (x : ℕ) (xs : List ℕ) (end q : Option ℕ)
    → Misses x xs
    → Linked prev next p (x ∷ xs) end
    → Linked (update prev x q) next q (x ∷ xs) end
link_first prev next p x xs end q away (a, b, l) =
    (update_eq prev x q, b, frame_prev prev next (some x) xs end x q away l)

Misses-last :
    (k l : ℕ) (x : ℕ) (xs : List ℕ) → Misses k (x ∷ xs) → last_of none (x ∷ xs) ≡ some l → l ≢ k
Misses-last k l x [] (ne, h) e = subst (λ y. y ≢ k) (same e) ne
  where
    same : some x ≡ some l → x ≡ l
    same e = cc
Misses-last k l x (y ∷ ys) (ne, h) e = Misses-last k l y ys h e

-- The last of a segment gets another pointer forth.
pub link_last :
    (prev next : ℕ → Option ℕ) (p : Option ℕ) (xs : List ℕ) (end : Option ℕ) (l : ℕ) (q : Option ℕ)
    → StandOnce xs
    → last_of none xs ≡ some l
    → Linked prev next p xs end
    → Linked prev (update next l q) p xs q
link_last prev next p [] end l q d e k = tt
link_last prev next p (x ∷ []) end l q d e (a, b, k) =
    (a, subst (λ y. update next y q x ≡ q) (same e) (update_eq next x q), tt)
  where
    same : some x ≡ some l → x ≡ l
    same e = cc
link_last prev next p (x ∷ y ∷ ys) end l q (first, d) e (a, b, k) = (
  a,
  update_ne next l x q (λ same. Misses-last x l y ys first e (sym same)) ∙ b,
  link_last prev next (some x) (y ∷ ys) end l q d e k,
)

module _ (P : ℕ → Type 0) where
  pub All-left : (xs ys : List ℕ) → All P (xs ++ ys) → All P xs
  All-left [] ys h = tt
  All-left (x ∷ xs) ys (p, h) = (p, All-left xs ys h)

  pub All-right : (xs ys : List ℕ) → All P (xs ++ ys) → All P ys
  All-right [] ys h = h
  All-right (x ∷ xs) ys (p, h) = All-right xs ys h

  pub All-append : (xs ys : List ℕ) → All P xs → All P ys → All P (xs ++ ys)
  All-append [] ys h k = k
  All-append (x ∷ xs) ys (p, h) k = (p, All-append xs ys h k)

  pub All_last : (xs : List ℕ) (l : ℕ) → All P xs → last_of none xs ≡ some l → P l
  All_last [] l h e = absurd (some_none e)
    where
      some_none : none ≡ some l → ⊥
      some_none e = cc
  All_last (x ∷ []) l (p, h) e = subst P (same e) p
    where
      same : some x ≡ some l → x ≡ l
      same e = cc
  All_last (x ∷ y ∷ ys) l (p, h) e = All_last (y ∷ ys) l h e

-- No member of the one list stands in the other.
abbrev pub Apart : List ℕ → List ℕ → Type 0
Apart xs ys = All (λ x. Misses x ys) xs

Apart-cons : (x : ℕ) (xs ys : List ℕ) → Misses x xs → Apart xs ys → Apart xs (x ∷ ys)
Apart-cons x [] ys m a = tt
Apart-cons x (y ∷ xs) ys (ne, m) (k, a) = (((λ e. ne (sym e)), k), Apart-cons x xs ys m a)

Apart-nil : (xs : List ℕ) → Apart xs []
Apart-nil [] = tt
Apart-nil (x ∷ xs) = (tt, Apart-nil xs)

pub Apart-sym : (xs ys : List ℕ) → Apart xs ys → Apart ys xs
Apart-sym [] ys a = Apart-nil ys
Apart-sym (x ∷ xs) ys (m, a) = Apart-cons x ys xs m (Apart-sym xs ys a)

pub StandOnce_left : (xs ys : List ℕ) → StandOnce (xs ++ ys) → StandOnce xs
StandOnce_left [] ys d = tt
StandOnce_left (x ∷ xs) ys (m, d) = (All-left (λ y. y ≢ x) xs ys m, StandOnce_left xs ys d)

pub StandOnce_right : (xs ys : List ℕ) → StandOnce (xs ++ ys) → StandOnce ys
StandOnce_right [] ys d = d
StandOnce_right (x ∷ xs) ys (m, d) = StandOnce_right xs ys d

pub StandOnce-Apart : (xs ys : List ℕ) → StandOnce (xs ++ ys) → Apart xs ys
StandOnce-Apart [] ys d = tt
StandOnce-Apart (x ∷ xs) ys (m, d) = (All-right (λ y. y ≢ x) xs ys m, StandOnce-Apart xs ys d)

pub StandOnce-append :
    (xs ys : List ℕ) → StandOnce xs → StandOnce ys → Apart xs ys → StandOnce (xs ++ ys)
StandOnce-append [] ys d e a = e
StandOnce-append (x ∷ xs) ys (m, d) e (k, a) =
    (All-append (λ y. y ≢ x) xs ys m k, StandOnce-append xs ys d e a)

pub last_of-some : (x : ℕ) (xs : List ℕ) → (l : ℕ) × (last_of (some x) xs ≡ some l)
last_of-some x [] = (x, refl)
last_of-some x (y ∷ ys) = last_of-some y ys

-- Links that are the same at every member.
pub Linked-same :
    (prev next prev' next' : ℕ → Option ℕ) (p : Option ℕ) (xs : List ℕ) (end : Option ℕ)
    → All (λ y. (prev' y ≡ prev y) × (next' y ≡ next y)) xs
    → Linked prev next p xs end
    → Linked prev' next' p xs end
Linked-same prev next prev' next' p [] end same l = tt
Linked-same prev next prev' next' p (x ∷ xs) end ((e, f), same) (a, b, l) =
    (e ∙ a, f ∙ b, Linked-same prev next prev' next' (some x) xs end same l)

-- One more at the end of a list that has one.
pub Linked-snoc :
    (prev next prev' next' : ℕ → Option ℕ) (p : Option ℕ) (xs : List ℕ) (l d : ℕ)
    → StandOnce xs
    → Misses d xs
    → last_of none xs ≡ some l
    → ((y : ℕ) → y ≢ d → prev' y ≡ prev y)
    → ((y : ℕ) → y ≢ d → y ≢ l → next' y ≡ next y)
    → next' l ≡ some d
    → prev' d ≡ some l
    → next' d ≡ none
    → Linked prev next p xs none
    → Linked prev' next' p (xs ++ d ∷ []) none
Linked-snoc prev next prev' next' p [] l d once away e sp sn nl pd nd k = absurd (none-some e)
  where
    none-some : none ≡ some l → ⊥
    none-some e = cc
Linked-snoc prev next prev' next' p (x ∷ []) l d once (ne, away) e sp sn nl pd nd (a, b, k) =
    (sp x ne ∙ a, subst (λ y. next' y ≡ some d) (sym (same e)) nl, (pd ∙ sym e, nd, tt))
  where
    same : some x ≡ some l → x ≡ l
    same e = cc
Linked-snoc prev next prev' next' p (x ∷ y ∷ ys) l d (first, once) (ne, away) e sp sn nl pd nd
      (a, b, k) =
    (
      sp x ne ∙ a,
      sn x ne (λ same. Misses-last x l y ys first e (sym same)) ∙ b,
      Linked-snoc prev next prev' next' (some x) (y ∷ ys) l d once away e sp sn nl pd nd k,
    )
