-- ===== src/Lib.antt =====
-- Verification of yet_another_storage, a key-value storage in C++17 (include/storage).
--
-- The program keeps values under keys on physical volumes. A physical volume is a device, a file
-- or a vector, with a header, freelists, and entries; an inverted index maps each key to the
-- offset of its entry. `PVManager` joins the index and the entries; `Storage` mounts catalogs of
-- several volumes under catalogs of its own and sends each call to the volumes of the longest path.
--
-- The files, with the code that each models (paths below include/storage):
--   Utils: lib/utils/Version.hpp and Time.hpp.
--   Trie: lib/inverted_index/AhoCorasickEngine.hpp; a node owns its routes, so it is a tree.
--     Trie/Lookup and Trie/Paths prove what it holds and how far its paths reach.
--   Index: lib/inverted_index/InvertedIndexHelper.hpp; Index/Refinement compares it with a map, and
--     Index/Saved saves it and reads it back.
--   Index/Serialization: lib/inverted_index/AhoCorasickSerializationHelper.hpp and
--     aho_corasick_serialization_headers.hpp, in Serialize and Deserialize. The other files below it
--     prove the size (LeafCount and Size) and the round trip: Visits and Levels what the
--     breadth-first walk emits, Cursor, LeafMap and Ranges how it is read, Peek, Prefix and Answers
--     what a trie answers, Fresh and Place how the nodes of a level are placed.
--   Freelist: lib/physical_volume/FreelistHelper.hpp; Freelist/Bins, PushPop and Restore.
--   Errors: storage_errors.hpp and lib/exceptions; Exec: how code that may throw runs on a state.
--   Bytes: lib/utils/serialization_utils.h; a structure is the list of its fields with widths.
--     Bytes/Cursor has `SaveAsBytes` and `LoadFromBytes` at a cursor of a buffer, with their guards.
--   Layout: lib/physical_volume/pv_layout_headers.h.
--   Device: the interface that a device has to the rest (`Device`), what a reliable one does
--     (`IsReliable`), and lib/devices/TestDevice.hpp, which is reliable.
--     Device/FileDevice: lib/devices/FileDevice.hpp.
--   Reader: lib/physical_volume/PVDeviceDataReaderWriter.hpp; Reader/Chunk and Sequels read values.
--   Allocator: lib/physical_volume/PVEntriesAllocator.hpp; Allocator/Chain and Links are about
--     the clusters of a buffer, Rounds and Expand about `ExpandPV`.
--   Entries: lib/physical_volume/PVEntriesManager.hpp and EntriesTypeConverter.hpp; Entries/Start
--     is the start of the volume.
--   Volume: PVManager.hpp and IStorage.hpp; Volume/Lifecycle is `Load`, `Create` and `close`.
--   Storage: Storage.hpp, over an interface of the calls of `PVManager` (`VolumeCalls`).
--   Factory: PVManagerFactory.hpp, over the calls of the file system and of `PVManager` (`World`);
--     Factory/Kept is about sequences of its calls.
--   Prelude: shared names and the lemmas on lists. Tests: the theorems at concrete inputs.
--
-- How it is modelled. A member function is a function of the object's state that returns a result
-- and the state; an exception keeps the state as it is then. `fault` stands for what the model does
-- not run: an access out of bounds, or a loop that has run for all its fuel. Numbers are native
-- natural numbers, with the wrap-around of sums of offsets written out. An operation of a volume or
-- of the factory holds its object's mutex, so it is one step; the operations of `Storage` share a
-- lock, and are modelled without another call between their calls of the volumes. A character is a
-- number, and a number or a float that is stored is its bit pattern, little-endian. A priority is
-- the 32 bits of an `int32_t`, which `Storage` compares as a `uint32_t`, so a negative priority is
-- above all others. A cluster size is not negative; where it is zero, the source divides by zero,
-- and the quotient here is zero.
--
-- The loops over the chunks of a value run on fuel: reading takes the size of the value, since each
-- chunk that is read makes the rest smaller, and writing the size of the data. The loop that deletes
-- chunks runs at most once, as in the source. The walk over the levels of the trie takes the trie's
-- height, since each round goes one level down, and the loop of `ExpandPV` the number of clusters
-- asked for, since each round adds one or more.
--
-- Parameters: the device; the stream of the file device (`Stream`), of which the theorems assume
-- what the standard says at positions up to the end of the file (`IsDocumented`); the arithmetic of
-- `double` in the allocator (`DoubleOps`); what the code leaves uninitialised (`Chance`,
-- `Uninitialised`); the clock reading (`now`); in `Storage`, the calls of the volumes and the result of
-- `PVManagerFactory::Create`; in `Factory`, the calls of the world, of which Factory/Kept assumes
-- that they leave a device that is there (`IsStable`).
--
-- Not modelled: the calls of the file system in lib/devices/FileDevice.hpp (`Exists`, `CreateEmpty`
-- and `Canonical`), and what `Deserialize` does to the pointers into a node that is replaced.
-- lib/ext is a third-party header; the tests, the examples and the build files add no behaviour.
-- An exception of the string operations of `Storage` is left out, as is a failure of a mutex.
pub mod Prelude
pub mod Utils
pub mod Trie
pub mod Index
pub mod Freelist
pub mod Errors
pub mod Exec
pub mod Bytes
pub mod Layout
pub mod Device
pub mod Reader
pub mod Allocator
pub mod Entries
pub mod Volume
pub mod Storage
pub mod Factory
pub mod Tests
