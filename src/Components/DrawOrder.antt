-- ===== src/Components/DrawOrder.antt =====
-- The draw order of an Artboard (src/artboard.cpp): sortDrawOrder and the loop of draw. Drawables and
-- DrawTargets are pointers, numbers here, and their links are functions of the pointer. A `none` is a
-- write through the null pointer. Every DrawTarget of the list has its `drawable()`, since
-- onAddedDirty refuses one without.
pub mod Segments
pub mod Splice
pub mod Order
pub mod Groups
pub mod Distribute
pub mod Placed
pub mod Ends
pub mod Sorted
use rive_cpp_legacy.Prelude.{
  ℕ, zero, suc, Bool, true, false, List, [], ◌∷◌, Option, none, some, if◌then◌else◌, ◌==◌,
}
use rive_cpp_legacy.Prelude.Fallible.{◌>>=◌}

-- What `placement` makes of the uint32_t of the file, by a cast to an unsigned char: `neither` is any
-- value but 0 and 1.
pub data Placement : Type 0 where
  before : Placement
  after : Placement
  neither : Placement

-- `prev` and `next` of the drawables, `first` and `last` of the targets, m_FirstDrawable, the local
-- `lastDrawable`, and m_HasChangedDrawOrderInLastUpdate.
pub record Links : Type 0 where
  pub prev : ℕ → Option ℕ
  pub next : ℕ → Option ℕ
  pub first : ℕ → Option ℕ
  pub last : ℕ → Option ℕ
  pub first_drawable : Option ℕ
  pub last_drawable : Option ℕ
  pub changed : Bool

abbrev pub update : (ℕ → Option ℕ) → ℕ → Option ℕ → ℕ → Option ℕ
update f k v x = if x == k then v else f x

abbrev pub set_prev : ℕ → Option ℕ → Links → Links
set_prev d v s = record s { prev = update s.prev d v }

abbrev pub set_next : ℕ → Option ℕ → Links → Links
set_next d v s = record s { next = update s.next d v }

-- A write to the `next` of what a pointer points to.
abbrev pub set_next_of : Option ℕ → Option ℕ → Links → Option Links
set_next_of none v s = none
set_next_of (some d) v s = some (set_next d v s)

abbrev pub is_same : Option ℕ → ℕ → Bool
is_same none d = false
is_same (some x) d = x == d

unfoldable pub reset_targets : List ℕ → Links → Links
reset_targets [] s = s
reset_targets (t ∷ ts) s =
    reset_targets ts (record s { first = update s.first t none; last = update s.last t none })

-- What lies before the target's drawable leads to the first of the target's own.
abbrev pub link_back : Option ℕ → ℕ → Links → Links
link_back none f s = s
link_back (some p) f s = set_prev f (some p) (set_next p (some f) s)

abbrev pub link_forth : Option ℕ → Option ℕ → Links → Option Links
link_forth none l s = some s
link_forth (some n) l s = set_next_of l (some n) (set_prev n l s)

-- One target that stands at `x` and has drawables, from `f` to `l`.
unfoldable pub splice_at : Placement → ℕ → ℕ → Option ℕ → Links → Option Links
splice_at before x f l s =
    let s1 = link_back (s.prev x) f s in
    let first = if is_same s1.first_drawable x then some f else s1.first_drawable in
    set_next_of l (some x) (set_prev x l (record s1 { first_drawable = first }))
splice_at after x f l s = link_forth (s.next x) l s >>= λ s1.
    let last = if is_same s1.last_drawable x then l else s1.last_drawable in
    some (set_prev f (some x) (set_next x (some f) (record s1 { last_drawable = last })))
splice_at neither x f l s = some s

-- A drawable joins the target's list, whose first is given.
unfoldable pub join_target : Option ℕ → ℕ → ℕ → Links → Option Links
join_target none t d s = some (
    set_next d none (
      set_prev d none
        (record s { first = update s.first t (some d); last = update s.last t (some d) })))
join_target (some f) t d s = set_next_of (s.last t) (some d) s >>= λ s1.
    some (set_next d none (record (set_prev d (s1.last t) s1) { last = update s1.last t (some d) }))

-- A drawable joins the list of those without a target, whose last is given.
unfoldable pub append_behind : Option ℕ → ℕ → Links → Links
append_behind none d s = record (set_next d none (set_prev d none s)) {
  first_drawable = some d;
  last_drawable = some d;
}
append_behind (some l) d s =
    record (set_next l (some d) (set_next d none (set_prev d (some l) s))) {
      last_drawable = some d;
    }

-- A drawable with the active target of its rules, if it has them and they have one.
unfoldable pub add_drawable : Option ℕ → ℕ → Links → Option Links
unfolding join_target append_behind
add_drawable none d s = some (append_behind s.last_drawable d s)
add_drawable (some t) d s = join_target (s.first t) t d s

-- The drawables in their order, the target that `flattenedDrawRules` makes active for each, and the
-- targets with what they stand at.
pub record Scene : Type 0 where
  pub active : ℕ → Option ℕ
  pub drawable : ℕ → ℕ
  pub placement : ℕ → Placement

module _ (scene : Scene) where
  open scene use {active, drawable, placement}

  unfoldable pub distribute : List ℕ → Links → Option Links
  unfolding add_drawable
  distribute [] s = some s
  distribute (d ∷ ds) s = add_drawable (active d) d s >>= λ s'. distribute ds s'

  -- A target, whose first drawable is given.
  unfoldable pub splice_from : Option ℕ → ℕ → Links → Option Links
  unfolding splice_at
  splice_from none t s = some s
  splice_from (some f) t s = splice_at (placement t) (drawable t) f (s.last t) s

  unfoldable pub splice : ℕ → Links → Option Links
  unfolding splice_from
  splice t s = splice_from (s.first t) t s

  unfoldable pub splice_all : List ℕ → Links → Option Links
  unfolding splice
  splice_all [] s = some s
  splice_all (t ∷ ts) s = splice t s >>= λ s'. splice_all ts s'

  unfoldable pub sort_draw_order : List ℕ → List ℕ → Links → Option Links
  unfolding reset_targets distribute splice_all
  sort_draw_order targets drawables s =
      let s1 = record (reset_targets targets (record s { changed = true })) {
        first_drawable = none;
        last_drawable = none;
      } in
      distribute drawables s1 >>= λ s2.
      splice_all targets s2 >>= λ s3. some (record s3 { first_drawable = s3.last_drawable })

-- The loop of `draw`: the drawables that it meets, in order, from a pointer on.
unfoldable pub draw_loop : ℕ → Option ℕ → Links → List ℕ
draw_loop zero pointer s = []
draw_loop (suc fuel) none s = []
draw_loop (suc fuel) (some d) s = d ∷ draw_loop fuel (s.prev d) s
