-- ===== src/Animation/Listeners.antt =====
-- The listeners of a StateMachineInstance and the components that they test for hits
-- (src/animation/state_machine_instance.cpp). A StateMachineListener and its ListenerGroup go by one
-- number, as each listener has one group, and a HitShape by its component's. `World` stands for the
-- artboard, the machine's inputs and the nested artboards, which a listener's actions change.
pub mod Process
pub mod Keeps
pub mod Logged
pub mod Turn
pub mod Ready
pub mod Once
pub mod Click
pub mod Press
pub mod Gesture
pub mod Release
pub mod Clicked
pub mod Sort
pub mod Sorted
pub mod Order
pub mod Drawn
use rive_cpp_legacy.Prelude.{
  ℕ, Bool, true, false, not, ◌&&◌, ◌||◌, List, [], ◌∷◌, ◌++◌, Option, if◌then◌else◌,
}
use rive_cpp_legacy.Prelude.Int.{ℤ}

pub data ListenerType : Type 0 where
  enter : ListenerType
  exit : ListenerType
  down : ListenerType
  up : ListenerType
  move : ListenerType
  event : ListenerType
  click : ListenerType

pub data GestureClickPhase : Type 0 where
  out : GestureClickPhase
  down : GestureClickPhase
  clicked : GestureClickPhase

pub data HitResult : Type 0 where
  none : HitResult
  hit : HitResult
  hit_opaque : HitResult

-- The enumerators by their values, to compare them.
abbrev pub type_value : ListenerType → ℕ
type_value ListenerType.enter = 0
type_value ListenerType.exit = 1
type_value ListenerType.down = 2
type_value ListenerType.up = 3
type_value ListenerType.move = 4
type_value ListenerType.event = 5
type_value ListenerType.click = 6

pub record Vec2d (Float : Type 0) : Type 0 where
  pub x : Float
  pub y : Float

pub record Aabb (Float : Type 0) : Type 0 where
  pub min_x : Float
  pub min_y : Float
  pub max_x : Float
  pub max_y : Float

pub record Iaabb : Type 0 where
  pub left : ℤ
  pub top : ℤ
  pub right : ℤ
  pub bottom : ℤ

-- What the listeners use: floats, shapes, actions and nested artboards.
pub record Host : Type 1 where
  pub Float : Type 0
  pub World : Type 0
  pub of_ℕ : ℕ → Float
  pub add : Float → Float → Float
  pub sub : Float → Float → Float
  pub mul : Float → Float → Float
  pub le : Float → Float → Bool
  -- graphics_roundf, to an int32_t.
  pub round : Float → ℤ
  -- Artboard: frameOrigin, originX, width, originY, height.
  pub frame_origin : World → Bool
  pub origin_x : World → Float
  pub width : World → Float
  pub origin_y : World → Float
  pub height : World → Float
  -- Shape: worldBounds, hitTest and isTargetOpaque.
  pub world_bounds : ℕ → World → Aabb Float
  pub hit_test_area : ℕ → Iaabb → World → Bool
  pub is_target_opaque : ℕ → World → Bool
  -- StateMachineListener: listenerType, and performChanges at a position and a previous one.
  pub listener_type : ℕ → ListenerType
  pub perform_changes : ℕ → Vec2d Float → Vec2d Float → World → World
  -- NestedArtboard: isCollapsed, worldToLocal, and those of its animations that are nested state
  -- machines, with what a pointer does to them.
  pub is_collapsed : ℕ → World → Bool
  pub world_to_local : ℕ → Vec2d Float → World → Option (Vec2d Float)
  pub nested_machines : ℕ → World → List ℕ
  pub nested_down : ℕ → Vec2d Float → World → HitResult × World
  pub nested_up : ℕ → Vec2d Float → World → HitResult × World
  pub nested_move : ℕ → Vec2d Float → World → HitResult × World
  pub nested_exit : ℕ → Vec2d Float → World → HitResult × World

pub record HitShape : Type 0 where
  pub component : ℕ
  pub can_early_out : Bool
  pub has_down_listener : Bool
  pub has_up_listener : Bool
  pub listeners : List ℕ

pub data HitComponent : Type 0 where
  hit_shape : HitShape → HitComponent
  hit_nested_artboard : ℕ → HitComponent

module _ (host : Host) where
  open host use {Float, World, listener_type, is_target_opaque}

  pub record ListenerGroup : Type 0 where
    pub previous_position : Vec2d Float
    pub is_consumed : Bool
    pub is_hovered : Bool
    pub prev_is_hovered : Bool
    pub click_phase : GestureClickPhase

  -- The groups, `isHovered` of the shapes, m_needsAdvance, and what lies outside.
  pub record State : Type 0 where
    pub groups : ℕ → ListenerGroup
    pub shape_hovered : ℕ → Bool
    pub needs_advance : Bool
    pub world : World

  -- The constructor of HitShape.
  abbrev pub make_hit_shape : ℕ → World → HitShape
  make_hit_shape component world = record {
    component = component;
    can_early_out = not (is_target_opaque component world);
    has_down_listener = false;
    has_up_listener = false;
    listeners = [];
  }

  abbrev notes_down : ListenerType → Bool
  notes_down ListenerType.down = true
  notes_down ListenerType.click = true
  notes_down other = false

  abbrev notes_up : ListenerType → Bool
  notes_up ListenerType.up = true
  notes_up ListenerType.click = true
  notes_up other = false

  abbrev follows_pointer : ListenerType → Bool
  follows_pointer ListenerType.enter = true
  follows_pointer ListenerType.exit = true
  follows_pointer ListenerType.move = true
  follows_pointer other = false

  unfoldable pub add_listener : ℕ → HitShape → HitShape
  add_listener g shape =
      let type = listener_type g in
      if follows_pointer type
      then record shape { can_early_out = false; listeners = shape.listeners ++ g ∷ [] }
      else (record shape {
        has_down_listener = if notes_down type then true else shape.has_down_listener;
        has_up_listener = if notes_up type then true else shape.has_up_listener;
        listeners = shape.listeners ++ g ∷ [];
      })
