-- ===== src/Lib.antt =====
-- The runtime of Rive (src, include/rive): a player of animated vector graphics. A .riv file is read
-- through BinaryReader into objects, which the importers put together to a Backboard and Artboards.
-- An Artboard orders its components by their dependencies, and in each frame updates those that
-- carry dirt. State machines and keyframes move the objects, and the shapes draw RawPaths.
--
-- The parts, from the bytes upwards:
--   Core/Leb, Core/Words: include/rive/core/reader.h, and the writers of src/core/binary_writer.cpp:
--     LEB128 integers (decode_uint_leb, decode_uint_leb32, writeVarUint) and values of fixed width
--     (decode_float, decode_double, decode_uint_32). A float is its bit pattern, and the byte order
--     of the host is a parameter.
--   Core/Reader: BinaryReader (src/core/binary_reader.cpp, include/rive/core/binary_reader.hpp) as
--     functions from the state to a value and the next state, over Core/Leb and Core/Words.
--   Core/Writer: VectorBinaryWriter (include/rive/core/vector_binary_writer.hpp) under the calls of
--     BinaryWriter.
--   Importers/Assets: BackboardImporter (src/importers/backboard_importer.cpp): addFileAsset, and in
--     Resolve the other calls and `resolve`, on objects that the world holds (`Bindings`).
--   Importers/Stack: ImportStack (include/rive/importers/import_stack.hpp), in which the importers find
--     each other; the importers' `resolve` and `readNullObject` are parameters.
--   Importers/Header: RuntimeHeader::read (include/rive/runtime_header.hpp) over Core/Reader.
--   Importers/File: readRuntimeObject, and Read with File::read and File::import (src/file.cpp), over
--     Core/Reader and the two parts above. The core types, which are generated, and the importers under
--     the calls of the stack are parameters (`Runtime`, `Objects`); Logged is a runtime that writes
--     down which importers are resolved, and Stored says which bytes stand for an object. A file that
--     is not imported is given up with all that it holds, and its destructor is left out.
--   Dependency/Sorter: DependencySorter (src/dependency_sorter.cpp), which orders the components.
--   Components/Dirt: Component::addDirt and collapse (src/component.cpp), DependencyHelper
--     (include/rive/dependency_helper.hpp) and Artboard::updateComponents (src/artboard.cpp), which
--     takes that order. What a kind of component does in `update` is a parameter, and so is what an
--     override of `onDirty` does, but the one of Artboard.
--   Components/DrawOrder: Artboard::sortDrawOrder and the walk of Artboard::draw over the links of
--     drawables and draw targets (src/artboard.cpp), for each placement value that a file can hold.
--   Animation/Keyframes: KeyedProperty (src/animation/keyed_property.cpp): closestFrameIndex, apply
--     and reportKeyedCallbacks.
--   Animation/Layer: StateMachineLayerInstance (src/animation/state_machine_instance.cpp) with its
--     StateTransitions (src/animation/state_transition.cpp): Transitions has their times and
--     `allowed`, Choice the choice among them, State the change of state, Step `advance` and `apply`.
--     The animations, the conditions and the random source are parameters (`Machine`).
--   Animation/Listeners: the listener groups, hit components and pointer events of
--     StateMachineInstance (src/animation/state_machine_instance.cpp): Process has prepareEvent,
--     processEvent and updateListeners, Sort has sortHitComponents, which follows the links of
--     Components/DrawOrder. The shapes, actions and nested artboards are parameters (`Host`); Logged
--     is a host that writes down which listeners perform their changes.
--   Animation/Blend: BlendState1DInstance (src/animation/blend_state_1d_instance.cpp), animationIndex
--     and the mixes that `advance` sets.
--   Math/RawPath: RawPath (src/math/raw_path.cpp, include/rive/math/raw_path.hpp): drawing, shapes
--     (Shapes), the iterator with morph and addTo (Iterate), and pruneEmptySegments (Compact). The
--     floats are a parameter (`Plane`).
--   Text/Utf: src/text/utf.cpp.
--   Prelude has the lemmas on lists, bits, signed integers and orders that the parts share, and
--   Tests the runs on concrete inputs and the theorems at inputs that meet their hypotheses.
--
-- A call on which C++ puts no meaning (a read outside an array, of a member that was never set, a
-- call on the null pointer), or which throws, as readString does when it asks for a vector above its
-- max_size, has `none`, or a constructor of its own, as its outcome. Pointers to
-- objects are numbers, and an object that several others point to is a function of its number.
--
-- Bounds and fuel: unsigned arithmetic is taken modulo its width where it can wrap, and so is the
-- position of BinaryReader, to which readBytes adds a number that it does not check. The buffer of
-- writeVarUint has its 16 bytes. The searches of closestFrameIndex and animationIndex get one more
-- fuel than there are keyframes or animations, the depth-first search one more than there are
-- components, the keys of the file header one more than there are bytes, those of File::import two
-- more, and the recursion of addDirt one more than there are components that lack the dirt; each
-- round uses up at least one of them. The walks over the drawables get as much fuel as there are
-- drawables. The 100 rounds of a layer's advance and the 100 steps of updateComponents are those of
-- the source. The loops of RawPath run once for each verb that is left.
--
-- Not modelled: the generated core types and their registry (include/rive/generated), since they are
-- data of the definitions in dev/defs; the renderers, decoders, viewer and tools, which call the
-- graphics libraries; text shaping, layout and audio, which call HarfBuzz, Yoga and miniaudio; and
-- the evaluation of constraints, bones, meshes and interpolators, which is real arithmetic on floats.
-- What the objects of a file and most importers do, the inputs and listener actions of a state
-- machine, the linear animations and the data bindings are not modelled either.
mod Prelude
pub mod Core
pub mod Components
pub mod Dependency
pub mod Animation
pub mod Math
pub mod Text
pub mod Importers
mod Tests
