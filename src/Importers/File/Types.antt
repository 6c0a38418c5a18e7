-- ===== src/Importers/File/Types.antt =====
-- The importers that File::read (src/file.cpp) makes for the types of objects.
use rive_cpp_legacy.Prelude.{ℕ, List, [], ◌∷◌, if◌then◌else◌, ◌==◌, contains}

-- The type keys of the generated core types that File::read names.
abbrev pub artboard : ℕ
artboard = 1

abbrev bindable_property : ℕ
bindable_property = 9

abbrev pub backboard : ℕ
backboard = 23

abbrev keyed_property : ℕ
keyed_property = 26

abbrev linear_animation : ℕ
linear_animation = 31

abbrev state_machine_layer : ℕ
state_machine_layer = 57

abbrev layer_state : ℕ
layer_state = 60

abbrev state_transition : ℕ
state_transition = 65

abbrev pub layer_component : ℕ
layer_component = 66

abbrev file_asset : ℕ
file_asset = 103

abbrev pub view_model : ℕ
view_model = 435

abbrev pub data_enum : ℕ
data_enum = 438

abbrev pub view_model_property_enum : ℕ
view_model_property_enum = 439

abbrev view_model_condition : ℕ
view_model_condition = 482

-- Backboard, Artboard, DataEnum, LinearAnimation, KeyedObject, StateMachine, StateMachineListener,
-- ViewModel, ViewModelInstance, ViewModelInstanceList and DataConverterGroup, whose importers stand
-- under their own types.
abbrev own_types : List ℕ
own_types = 23 ∷ 1 ∷ 438 ∷ 31 ∷ 25 ∷ 53 ∷ 114 ∷ 435 ∷ 437 ∷ 441 ∷ 499 ∷ []

-- EntryState, ExitState, AnyState, AnimationState, BlendState1D and BlendStateDirect.
abbrev state_types : List ℕ
state_types = 63 ∷ 64 ∷ 62 ∷ 61 ∷ 76 ∷ 73 ∷ []

-- StateTransition and BlendStateTransition.
abbrev transition_types : List ℕ
transition_types = 65 ∷ 78 ∷ []

-- ImageAsset, FontAsset and AudioAsset.
abbrev pub asset_types : List ℕ
asset_types = 105 ∷ 141 ∷ 406 ∷ []

-- TransitionViewModelCondition and TransitionArtboardCondition.
abbrev condition_types : List ℕ
condition_types = 482 ∷ 497 ∷ []

-- BindablePropertyNumber, String, Color, Enum and Boolean.
abbrev property_types : List ℕ
property_types = 473 ∷ 471 ∷ 475 ∷ 474 ∷ 472 ∷ []

-- What the switch over the core type makes: no importer, one under a type, or one under a type that
-- needs the latest importer of another.
pub data Choice : Type 0 where
  no_importer : Choice
  importer : ℕ → Choice
  importer_of : ℕ → ℕ → Choice

unfoldable pub importer_for : ℕ → Choice
importer_for type =
    if contains own_types type
    then importer type
    else if type == keyed_property
    then importer_of keyed_property linear_animation
    else if type == state_machine_layer
    then importer_of state_machine_layer artboard
    else if contains state_types type
    then importer layer_state
    else if contains transition_types type
    then importer state_transition
    else if contains asset_types type
    then importer file_asset
    else if contains condition_types type
    then importer view_model_condition
    else if contains property_types type
    then importer bindable_property
    else no_importer
