-- ===== src/Index/Serialization.antt =====
-- include/storage/lib/inverted_index/AhoCorasickSerializationHelper.hpp, with
-- aho_corasick_serialization_headers.hpp and id_type_traits.hpp: the trie as bytes and back, as
-- `PVManager` uses it, with ids and leaves of eight bytes and characters of one.
pub mod Serialize
pub mod Deserialize
pub mod Peek
pub mod Visits
pub mod Levels
pub mod Cursor
pub mod LeafMap
pub mod Ranges
pub mod Prefix
pub mod Answers
pub mod Fresh
pub mod Place
pub mod PlaceLevel
pub mod PlaceLevels
pub mod Root
pub mod RoundTrip
pub mod LeafCount
pub mod Size
pub mod Keeping
use Prim.Native.String.{String}
use yet_another_storage.Prelude.{
  ℕ, zero, suc, ◌+◌, ◌-◌, ◌%◌, ◌^◌, max, Bool, true, false, not, Option, none, some, List, [], ◌∷◌,
  ◌++◌, length, drop, get_or, ltb, ◌==◌, if◌then◌else◌, ◌≡◌, refl,
}
use yet_another_storage.Errors.{
  StorageError, yas, inverted_index_deserialization_error,
  inverted_index_deserialization_version_unsupported_error,
}
use yet_another_storage.Exec.{Result, ok, throw, fault, out_of_fuel, dangling}
use yet_another_storage.Utils.Version.{Version, version_lt}
use yet_another_storage.Bytes.Packed.{Packed, sizeof, save_as_bytes, load_from_bytes}
use yet_another_storage.Trie.{
  Node, Routes, node, end, route, leaf, routes, is_exist_leaf, find_route, set_route, new_node,
  set_leaf,
}
use yet_another_storage.Trie.Paths.{has_path}

-- The bits of an id and of a leaf.
abbrev pub id_bits : ℕ
id_bits = 64

abbrev pub next_id : ℕ → ℕ
next_id id = (id + 1) % 2 ^ id_bits

-- `id_type_traits`
abbrev pub non_exist_id : ℕ
non_exist_id = 2 ^ id_bits - 1

abbrev pub is_exist_id : ℕ → Bool
is_exist_id value = not (value == non_exist_id)

-- `NodeSerializationDescriptorT`
pub record NodeSerialization : Type 0 where
  pub node_id : ℕ
  pub parent_node_id : ℕ
  pub depth_level : ℕ
  pub leaf_id : ℕ
  pub parent_node_ch : ℕ

abbrev pub node_serialization : Packed NodeSerialization
node_serialization = record {
  widths = 8 ∷ 8 ∷ 8 ∷ 8 ∷ 1 ∷ [];
  fields = λ h. h.node_id ∷ h.parent_node_id ∷ h.depth_level ∷ h.leaf_id ∷ h.parent_node_ch ∷ [];
  make = λ vs. record {
    node_id = get_or vs 0 0;
    parent_node_id = get_or vs 1 0;
    depth_level = get_or vs 2 0;
    leaf_id = get_or vs 3 0;
    parent_node_ch = get_or vs 4 0;
  };
  make-fields = λ h. refl;
}

-- `LeafSerializationDescriptorT`
pub record LeafSerialization : Type 0 where
  pub node_id : ℕ
  pub leaf : ℕ

abbrev pub leaf_serialization : Packed LeafSerialization
leaf_serialization = record {
  widths = 8 ∷ 8 ∷ [];
  fields = λ h. h.node_id ∷ h.leaf ∷ [];
  make = λ vs. record { node_id = get_or vs 0 0; leaf = get_or vs 1 0 };
  make-fields = λ h. refl;
}

-- `SerializationDataHeaderT`
pub record DataHeader : Type 0 where
  pub leafs_count : ℕ
  pub nodes_count : ℕ
  pub version : Version
  pub id_type_size : ℕ

abbrev pub data_header : Packed DataHeader
data_header = record {
  widths = 8 ∷ 8 ∷ 1 ∷ 1 ∷ 1 ∷ [];
  fields =
      λ h. h.leafs_count ∷ h.nodes_count ∷ h.version.major ∷ h.version.minor ∷ h.id_type_size ∷ [];
  make = λ vs. record {
    leafs_count = get_or vs 0 0;
    nodes_count = get_or vs 1 0;
    version = record { major = get_or vs 2 0; minor = get_or vs 3 0 };
    id_type_size = get_or vs 4 0;
  };
  make-fields = λ h. refl;
}

-- `NodeDescriptorT`, as `Serialize` uses it
pub record NodeDescriptor : Type 0 where
  pub node : Node
  pub node_id : ℕ
  pub parent_node_id : ℕ
  pub parent_node_ch : ℕ
