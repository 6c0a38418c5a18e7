-- ===== src/Animation/Listeners/Keeps.antt =====
-- What the loops of updateListeners (src/animation/state_machine_instance.cpp) keep, and the host
-- that writes down which listeners perform their changes.
use rive_cpp_legacy.Prelude.{
  ◌≢◌, All, false, ap, ◌∙◌, ℕ, ◌≡◌, refl, Bool, true, not, List, [], ◌∷◌, Option, ◌==◌, Bool-cases,
  ==_iff, arith, contains, inl, inr, ◌++◌,
}
use rive_cpp_legacy.Animation.Listeners.{
  ListenerType, HitResult, Host, HitComponent, HitShape, hit_shape, hit_nested_artboard, State,
}
use rive_cpp_legacy.Animation.Listeners.Process.{
  Position, early_out, process_group, process_groups, nested_at, process_event, process_all,
  join_result, is_opaque,
}

pub true_ne_false : true ≢ false
true_ne_false e = cc

pub contains_self : (g : ℕ) (gs : List ℕ) → contains (g ∷ gs) g ≡ true
contains_self g gs = rw ((==_iff g g).1 refl) refl

pub contains-later : (g h : ℕ) (gs : List ℕ) → contains gs h ≡ true → contains (g ∷ gs) h ≡ true
contains-later g h gs e = ground (arith, e)

-- The groups that a component gives their turn.
abbrev pub listeners_of : HitComponent → List ℕ
listeners_of (hit_shape shape) = shape.listeners
listeners_of (hit_nested_artboard component) = []

abbrev pub all_listeners : List HitComponent → List ℕ
all_listeners [] = []
all_listeners (c ∷ cs) = listeners_of c ++ all_listeners cs

pub contains-left : (gs hs : List ℕ) (g : ℕ) → contains gs g ≡ true → contains (gs ++ hs) g ≡ true
contains-left [] hs g e = cc
contains-left (x ∷ gs) hs g e = elim (Bool-cases (g == x)) [
  | inl here ↦ rw here refl
  | inr other ↦
      let rest : contains gs g ≡ true = ground (arith, e, other) in
      contains-later x g (gs ++ hs) (contains-left gs hs g rest)
]

pub contains-right : (gs hs : List ℕ) (g : ℕ) → contains hs g ≡ true → contains (gs ++ hs) g ≡ true
contains-right [] hs g e = e
contains-right (x ∷ gs) hs g e = contains-later x g (gs ++ hs) (contains-right gs hs g e)

join_result_clear :
    (a b : HitResult)
    → is_opaque a ≡ false
    → is_opaque b ≡ false
    → is_opaque (join_result a b) ≡ false
join_result_clear a b h k = ground (arith, h, k)

module _ (host : Host) (type : ListenerType) where
  -- A component that hides nothing of what lies below it.
  abbrev pub IsClear : Position host → HitComponent → Type 0
  IsClear p c = (s : State host) → is_opaque (process_event host p type true c s).0 ≡ false

module _ (host : Host) (type : ListenerType) (P : State host → Type 0) where
  -- A turn of one of these groups keeps `P`, and so does what happens in a nested artboard.
  abbrev pub KeptBy : Position host → Bool → List ℕ → Type 0
  KeptBy p can_hit gs =
      (g : ℕ) (s : State host)
      → contains gs g ≡ true
      → P s
      → P (process_group host p type can_hit g s)

  abbrev pub KeptNested : Type 0
  KeptNested =
      (can_hit : Bool) (component : ℕ) (p : Option (Position host)) (s : State host)
      → P s
      → P (record s { world = (nested_at host type can_hit component p s.world).1 })

  pub process_groups_keeps :
      (p : Position host) (can_hit : Bool) (gs : List ℕ) (s : State host)
      → KeptBy p can_hit gs
      → P s
      → P (process_groups host p type can_hit gs s)
  unfolding process_groups
  process_groups_keeps p can_hit [] s kept h = h
  process_groups_keeps p can_hit (g ∷ gs) s kept h =
      process_groups_keeps p can_hit gs (process_group host p type can_hit g s)
        (λ o u e. kept o u (contains-later g o gs e)) (kept g s (contains_self g gs) h)

  pub process_event_keeps :
      (p : Position host) (can_hit : Bool) (c : HitComponent) (s : State host)
      → KeptBy p can_hit (listeners_of c)
      → KeptNested
      → P s
      → P (process_event host p type can_hit c s).1
  unfolding process_event
  process_event_keeps p can_hit (hit_shape shape) s kept nested h =
      elim (Bool-cases (early_out shape type)) [
        | inl out ↦ rw out h
        | inr in_time ↦ rw in_time (process_groups_keeps p can_hit shape.listeners s kept h)
      ]
  process_event_keeps p can_hit (hit_nested_artboard component) s kept nested h =
      elim (Bool-cases (host.is_collapsed component s.world)) [
        | inl folded ↦ rw folded h
        | inr open_up ↦
            rw open_up (nested can_hit component (host.world_to_local component p s.world) s h)
      ]

  pub process_all_keeps :
      (p : Position host) (so_far : HitResult) (cs : List HitComponent) (s : State host)
      → ((can_hit : Bool) → KeptBy p can_hit (all_listeners cs))
      → KeptNested
      → P s
      → P (process_all host p type so_far cs s).1
  unfolding process_all
  process_all_keeps p so_far [] s kept nested h = h
  process_all_keeps p so_far (c ∷ cs) s kept nested h =
      let can_hit = not (is_opaque so_far) in
      let r = process_event host p type can_hit c s in
      process_all_keeps p (join_result so_far r.0) cs r.1
        (λ can g u e. kept can g u (contains-right (listeners_of c) (all_listeners cs) g e)) nested
        (process_event_keeps p can_hit c s
          (λ g u e. kept can_hit g u (contains-left (listeners_of c) (all_listeners cs) g e)) nested
          h)

  -- Below such components the loop goes on with `canHit`.
  pub process_all_below :
      (p : Position host) (so_far : HitResult) (before rest : List HitComponent) (s : State host)
      → is_opaque so_far ≡ false
      → All (IsClear host type p) before
      → KeptBy p true (all_listeners before)
      → KeptNested
      → P s
      → (result : HitResult) × (u : State host) × (process_all host p type so_far (before ++ rest) s
          ≡ process_all host p type result rest u)
        × (is_opaque result ≡ false)
        × P u
  unfolding process_all
  process_all_below p so_far [] rest s open_up clear kept nested h = (so_far, s, refl, open_up, h)
  process_all_below p so_far (c ∷ before) rest s open_up (lets, clear) kept nested h =
      let r = process_event host p type true c s in
      let (result, u, e, open', h') =
        process_all_below p (join_result so_far r.0) before rest r.1
          (join_result_clear so_far r.0 open_up (lets s)) clear
          (λ g v k. kept g v (contains-right (listeners_of c) (all_listeners before) g k)) nested
          (process_event_keeps p true c s
            (λ g v k. kept g v (contains-left (listeners_of c) (all_listeners before) g k)) nested
            h) in
      (
        result,
        u,
        ap
              (λ b.
                let q = process_event host p type (not b) c s in
                process_all host p type (join_result so_far q.0) (before ++ rest) q.1)
              open_up
            ∙ e,
        open',
        h',
      )

module _ (host : Host) where
  -- What the shape itself does in the loop, when it does not return early.
  pub process_all_shape :
      (p : Position host) (type : ListenerType) (so_far : HitResult) (shape : HitShape)
      (after : List HitComponent) (s : State host)
      → is_opaque so_far ≡ false
      → early_out shape type ≡ false
      → (result : HitResult) × (process_all host p type so_far (hit_shape shape ∷ after) s
          ≡ process_all host p type result after
              (process_groups host p type true shape.listeners s))
  unfolding process_all process_event
  process_all_shape p type so_far shape after s open_up in_time =
      let r = process_event host p type true (hit_shape shape) s in
      (join_result so_far r.0, rw (open_up, in_time) refl)
