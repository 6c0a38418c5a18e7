-- ===== src/Animation/Listeners/Process.antt =====
-- HitShape, HitNestedArtboard, updateListeners and the pointer's events
-- (src/animation/state_machine_instance.cpp).
use rive_cpp_legacy.Prelude.{
  ℕ, Bool, true, false, not, ◌&&◌, ◌||◌, List, [], ◌∷◌, Option, none, some, if◌then◌else◌, ◌==◌,
}
use rive_cpp_legacy.Animation.Listeners.{
  ListenerType, GestureClickPhase, HitResult, type_value, Vec2d, Aabb, Host, HitShape, HitComponent,
  hit_shape, hit_nested_artboard, ListenerGroup, State,
}

abbrev pub same_type : ListenerType → ListenerType → Bool
same_type a b = type_value a == type_value b

abbrev pub is_clicked : GestureClickPhase → Bool
is_clicked GestureClickPhase.clicked = true
is_clicked GestureClickPhase.out = false
is_clicked GestureClickPhase.down = false

abbrev pub differ : Bool → Bool → Bool
differ true b = not b
differ false b = b

-- What `updateListeners` collects from the components.
abbrev pub join_result : HitResult → HitResult → HitResult
join_result so_far HitResult.none = so_far
join_result HitResult.hit_opaque HitResult.hit = HitResult.hit_opaque
join_result so_far new = new

abbrev pub is_opaque : HitResult → Bool
is_opaque HitResult.hit_opaque = true
is_opaque HitResult.hit = false
is_opaque HitResult.none = false

-- The phase of the click gesture after an event, over the group or not.
unfoldable pub next_phase : ListenerType → Bool → GestureClickPhase → GestureClickPhase
next_phase ListenerType.down true phase = GestureClickPhase.down
next_phase ListenerType.down false phase = GestureClickPhase.out
next_phase ListenerType.up true GestureClickPhase.down = GestureClickPhase.clicked
next_phase ListenerType.up true phase = phase
next_phase ListenerType.up false phase = GestureClickPhase.out
next_phase other over phase = phase

abbrev pub hover_fires : ListenerType → Bool → Bool → Bool
hover_fires wanted over changed =
    changed
    && ((over && same_type wanted ListenerType.enter)
        || (not over && same_type wanted ListenerType.exit))

abbrev pub event_fires : ListenerType → ListenerType → Bool → GestureClickPhase → Bool
event_fires wanted type over phase =
    (is_clicked phase && same_type wanted ListenerType.click) || (over && same_type type wanted)

abbrev pub early_out : HitShape → ListenerType → Bool
early_out shape type =
    shape.can_early_out
    && (not (same_type type ListenerType.down) || not shape.has_down_listener)
    && (not (same_type type ListenerType.up) || not shape.has_up_listener)

module _ (host : Host) where
  open host use {
    Float, World, of_ℕ, add, sub, mul, le, round, frame_origin, origin_x, width, origin_y, height,
    world_bounds, hit_test_area, is_target_opaque, listener_type, perform_changes, is_collapsed,
    world_to_local, nested_machines, nested_down, nested_up, nested_move, nested_exit,
  }

  abbrev pub Position : Type 0
  Position = Vec2d Float

  abbrev pub Group : Type 0
  Group = ListenerGroup host

  abbrev pub set_group : ℕ → Group → State host → State host
  set_group g group s = record s { groups = λ h. if h == g then group else s.groups h }

  unfoldable pub reset : Group → Group
  reset group = record group {
    is_consumed = false;
    prev_is_hovered = group.is_hovered;
    is_hovered = false;
    click_phase = if is_clicked group.click_phase then GestureClickPhase.out else group.click_phase;
  }

  -- AABB::contains.
  abbrev contains : Aabb Float → Position → Bool
  contains box p = le box.min_x p.x && le p.x box.max_x && le box.min_y p.y && le p.y box.max_y

  -- HitShape::hitTest, with the `hitRadius` of 2.
  unfoldable pub hit_test : ℕ → Position → World → Bool
  hit_test component p world =
      if contains (world_bounds component world) p
      then hit_test_area component
          (record {
            left = round (sub p.x (of_ℕ 2));
            top = round (sub p.y (of_ℕ 2));
            right = round (add p.x (of_ℕ 2));
            bottom = round (add p.y (of_ℕ 2));
          })
          world
      else false

  unfoldable pub hover_all : List ℕ → State host → State host
  hover_all [] s = s
  hover_all (g ∷ gs) s = hover_all gs (set_group g (record (s.groups g) { is_hovered = true }) s)

  unfoldable pub prepare_event : Position → ListenerType → HitComponent → State host → State host
  unfolding hover_all hit_test
  prepare_event p type (hit_nested_artboard component) s = s
  prepare_event p type (hit_shape shape) s =
      if early_out shape type
      then s
      else (let hovered = hit_test shape.component p s.world in
          let s1 = record s {
            shape_hovered = λ c. if c == shape.component then hovered else s.shape_hovered c;
          } in
          if hovered then hover_all shape.listeners s1 else s1)

  -- performChanges, markNeedsAdvance and `consume`.
  unfoldable pub perform : Position → ℕ → State host → State host
  perform p g s = record (set_group g (record (s.groups g) { is_consumed = true }) s) {
    world = perform_changes g p (s.groups g).previous_position s.world;
    needs_advance = true;
  }

  abbrev pub perform_if : Bool → Position → ℕ → State host → State host
  perform_if true p g s = perform p g s
  perform_if false p g s = s

  -- The turn of a group that is not consumed. `over` is `isGroupHovered`.
  unfoldable pub fire : Position → ListenerType → ℕ → Bool → Group → State host → State host
  unfolding next_phase perform
  fire p type g over group s =
      let changed = differ group.prev_is_hovered over in
      let phase = next_phase type over group.click_phase in
      let placed = if changed && over then (record group { previous_position = p }) else group in
      let s1 = set_group g (record placed { click_phase = phase }) s in
      let s2 = perform_if (hover_fires (listener_type g) over changed) p g s1 in
      let s3 = perform_if (event_fires (listener_type g) type over phase) p g s2 in
      set_group g (record (s3.groups g) { previous_position = p }) s3

  unfoldable pub process_group : Position → ListenerType → Bool → ℕ → State host → State host
  unfolding fire
  process_group p type can_hit g s =
      if (s.groups g).is_consumed
      then s
      else (let over = can_hit && (s.groups g).is_hovered in
          let settled =
            if not can_hit && (s.groups g).is_hovered
            then (record (s.groups g) { is_hovered = false })
            else s.groups g in
          fire p type g over settled s)

  unfoldable pub process_groups : Position → ListenerType → Bool → List ℕ → State host → State host
  unfolding process_group
  process_groups p type can_hit [] s = s
  process_groups p type can_hit (g ∷ gs) s =
      process_groups p type can_hit gs (process_group p type can_hit g s)

  -- One nested state machine, with the result so far.
  unfoldable pub nested_event :
      Position → ListenerType → Bool → ℕ → HitResult → World → HitResult × World
  nested_event p ListenerType.down true m so_far world = nested_down m p world
  nested_event p ListenerType.up true m so_far world = nested_up m p world
  nested_event p ListenerType.move true m so_far world = nested_move m p world
  nested_event p ListenerType.down false m so_far world = (so_far, (nested_exit m p world).1)
  nested_event p ListenerType.up false m so_far world = (so_far, (nested_exit m p world).1)
  nested_event p ListenerType.move false m so_far world = (so_far, (nested_exit m p world).1)
  nested_event p other can_hit m so_far world = (so_far, world)

  unfoldable pub nested_events :
      Position → ListenerType → Bool → List ℕ → HitResult → World → HitResult × World
  unfolding nested_event
  nested_events p type can_hit [] so_far world = (so_far, world)
  nested_events p type can_hit (m ∷ ms) so_far world =
      let (result, world') = nested_event p type can_hit m so_far world in
      nested_events p type can_hit ms result world'

  -- The nested artboard at the position in its own space, where it has one.
  unfoldable pub nested_at : ListenerType → Bool → ℕ → Option Position → World → HitResult × World
  unfolding nested_events
  nested_at type can_hit component none world = (HitResult.none, world)
  nested_at type can_hit component (some p) world =
      nested_events p type can_hit (nested_machines component world) HitResult.none world

  unfoldable pub process_event :
      Position → ListenerType → Bool → HitComponent → State host → HitResult × State host
  unfolding process_groups nested_at
  process_event p type can_hit (hit_shape shape) s =
      if early_out shape type
      then (HitResult.none, s)
      else (let s' = process_groups p type can_hit shape.listeners s in
          (
            if s'.shape_hovered shape.component && can_hit
                then if is_target_opaque shape.component s'.world
                  then HitResult.hit_opaque
                  else HitResult.hit
                else HitResult.none,
            s',
          ))
  process_event p type can_hit (hit_nested_artboard component) s =
      if is_collapsed component s.world
      then (HitResult.none, s)
      else (let (result, world') =
            nested_at type can_hit component (world_to_local component p s.world) s.world in
          (result, record s { world = world' }))

  unfoldable pub reset_all : List ℕ → State host → State host
  unfolding reset
  reset_all [] s = s
  reset_all (g ∷ gs) s = reset_all gs (set_group g (reset (s.groups g)) s)

  unfoldable pub prepare_all : Position → ListenerType → List HitComponent → State host → State host
  unfolding prepare_event
  prepare_all p type [] s = s
  prepare_all p type (c ∷ cs) s = prepare_all p type cs (prepare_event p type c s)

  -- `so_far` is `hitSomething` with `hitOpaque`.
  unfoldable pub process_all :
      Position → ListenerType → HitResult → List HitComponent → State host → HitResult × State host
  unfolding process_event
  process_all p type so_far [] s = (so_far, s)
  process_all p type so_far (c ∷ cs) s =
      let (result, s') = process_event p type (not (is_opaque so_far)) c s in
      process_all p type (join_result so_far result) cs s'

  abbrev pub in_frame : World → Position → Position
  in_frame world p =
      if frame_origin world
      then (record {
        x = sub p.x (mul (origin_x world) (width world));
        y = sub p.y (mul (origin_y world) (height world));
      })
      else p

  -- m_listenerGroups and m_hitComponents come first.
  unfoldable pub update_listeners :
      List ℕ → List HitComponent → ListenerType → Position → State host → HitResult × State host
  unfolding reset_all prepare_all process_all
  update_listeners groups components type p s =
      let q = in_frame s.world p in
      process_all q type HitResult.none components
        (prepare_all q type components (reset_all groups s))

  abbrev pub pointer_move :
      List ℕ → List HitComponent → Position → State host → HitResult × State host
  pointer_move groups components p s = update_listeners groups components ListenerType.move p s

  abbrev pub pointer_down :
      List ℕ → List HitComponent → Position → State host → HitResult × State host
  pointer_down groups components p s = update_listeners groups components ListenerType.down p s

  abbrev pub pointer_up :
      List ℕ → List HitComponent → Position → State host → HitResult × State host
  pointer_up groups components p s = update_listeners groups components ListenerType.up p s

  abbrev pub pointer_exit :
      List ℕ → List HitComponent → Position → State host → HitResult × State host
  pointer_exit groups components p s = update_listeners groups components ListenerType.exit p s
