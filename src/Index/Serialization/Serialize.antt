-- ===== src/Index/Serialization/Serialize.antt =====
-- `Serialize` and `constructResultSerializedBuffer` of AhoCorasickSerializationHelper.hpp.
use yet_another_storage.Prelude.{
  ℕ, zero, suc, ◌%◌, ◌^◌, max, List, [], ◌∷◌, ◌++◌, length, if◌then◌else◌,
}
use yet_another_storage.Exec.{Result, ok, throw, fault, out_of_fuel}
use yet_another_storage.Utils.Version.{Version}
use yet_another_storage.Bytes.Packed.{Packed, save_as_bytes}
use yet_another_storage.Trie.{Node, Routes, node, end, route, leaf, routes, is_exist_leaf}
use yet_another_storage.Index.Serialization.{
  id_bits, next_id, non_exist_id, NodeSerialization, node_serialization, LeafSerialization,
  leaf_serialization, data_header, NodeDescriptor,
}

-- The inner loop: the descriptors of a node's children, and `current_node_id` behind it.
unfoldable pub emplace_routes : Routes → ℕ → ℕ → List NodeDescriptor × ℕ
emplace_routes end parent_id current_node_id = ([], current_node_id)
emplace_routes (route ch n rs) parent_id current_node_id =
    let rest = emplace_routes rs parent_id (next_id current_node_id) in
    (
      record {
        node = n;
        node_id = current_node_id;
        parent_node_id = parent_id;
        parent_node_ch = ch;
      }
          ∷ rest.0,
      rest.1,
    )

-- What the loop over a level adds to the storages, and the ids behind it.
pub record Level : Type 0 where
  pub serialized_leafs : List LeafSerialization
  pub serialized_nodes : List NodeSerialization
  pub next_level_nodes : List NodeDescriptor
  pub current_node_id : ℕ
  pub current_leaf_id : ℕ

-- The private `serialize` of a node
unfoldable pub serialize_node : NodeDescriptor → ℕ → ℕ → NodeSerialization
serialize_node d depth_level leaf_id = record {
  node_id = d.node_id;
  parent_node_id = d.parent_node_id;
  depth_level = depth_level;
  leaf_id = leaf_id;
  parent_node_ch = d.parent_node_ch;
}

-- One node of the loop over a level; `rest` is what the nodes behind it add.
unfoldable pub add_node : ℕ → NodeDescriptor → ℕ → List NodeDescriptor → Level → Level
unfolding serialize_node
add_node depth_level d current_leaf_id children rest =
    if is_exist_leaf id_bits (leaf d.node)
    then record rest {
      serialized_leafs = record { node_id = d.node_id; leaf = leaf d.node } ∷ rest.serialized_leafs;
      serialized_nodes = serialize_node d depth_level current_leaf_id ∷ rest.serialized_nodes;
      next_level_nodes = children ++ rest.next_level_nodes;
    }
    else record rest {
      serialized_nodes = serialize_node d depth_level non_exist_id ∷ rest.serialized_nodes;
      next_level_nodes = children ++ rest.next_level_nodes;
    }

-- The loop over a level.
unfoldable pub serialize_level : ℕ → List NodeDescriptor → ℕ → ℕ → Level
unfolding emplace_routes add_node
serialize_level depth_level [] current_node_id current_leaf_id = record {
  serialized_leafs = [];
  serialized_nodes = [];
  next_level_nodes = [];
  current_node_id = current_node_id;
  current_leaf_id = current_leaf_id;
}
serialize_level depth_level (d ∷ ds) current_node_id current_leaf_id =
    let children = emplace_routes (routes d.node) d.node_id current_node_id in
    let rest =
      serialize_level depth_level ds children.1 (
        if is_exist_leaf id_bits (leaf d.node) then next_id current_leaf_id else current_leaf_id) in
    add_node depth_level d current_leaf_id children.0 rest

abbrev pub Serialized : Type 0
Serialized = List LeafSerialization × List NodeSerialization

abbrev pub prepend : Level → Result Serialized → Result Serialized
prepend level (ok (leafs, nodes)) =
    ok (level.serialized_leafs ++ leafs, level.serialized_nodes ++ nodes)
prepend level (throw e) = throw e
prepend level (fault e) = fault e

-- The outer loop, a level in each round.
unfoldable pub serialize_levels : ℕ → ℕ → List NodeDescriptor → ℕ → ℕ → Result Serialized
unfolding serialize_level
serialize_levels zero depth_level [] current_node_id current_leaf_id = ok ([], [])
serialize_levels zero depth_level (d ∷ ds) current_node_id current_leaf_id = fault out_of_fuel
serialize_levels (suc fuel) depth_level [] current_node_id current_leaf_id = ok ([], [])
serialize_levels (suc fuel) depth_level (d ∷ ds) current_node_id current_leaf_id =
    let level = serialize_level depth_level (d ∷ ds) current_node_id current_leaf_id in
    prepend level (
      serialize_levels fuel (next_id depth_level) level.next_level_nodes level.current_node_id
        level.current_leaf_id)

-- The number of levels of a trie, which is the fuel.
unfoldable mutual
  pub height : Node → ℕ
  height (node rs l) = suc (height_routes rs)

  pub height_routes : Routes → ℕ
  height_routes end = 0
  height_routes (route ch n rs) = max (height n) (height_routes rs)

unfoldable pub save_all : {H : Type 0} → Packed H → List H → List ℕ
save_all P [] = []
save_all P (h ∷ hs) = save_as_bytes P h ++ save_all P hs

-- `constructResultSerializedBuffer`: the buffer has exactly the size of what is saved into it.
unfoldable pub construct_buffer : Version → Serialized → List ℕ
construct_buffer version (leafs, nodes) =
    save_as_bytes data_header (record {
      leafs_count = length leafs % 2 ^ id_bits;
      nodes_count = length nodes % 2 ^ id_bits;
      version = version;
      id_type_size = 8;
    })
    ++ (save_all leaf_serialization leafs ++ save_all node_serialization nodes)

abbrev pub map_result : {A B : Type 0} → (A → B) → Result A → Result B
map_result f (ok a) = ok (f a)
map_result f (throw e) = throw e
map_result f (fault e) = fault e

-- The descriptor of the root, with the character '/'.
abbrev pub root_descriptor : Node → NodeDescriptor
root_descriptor trie = record {
  node = trie;
  node_id = 0;
  parent_node_id = 0;
  parent_node_ch = b'/';
}

-- `Serialize`
unfoldable pub serialize : Version → Node → Result (List ℕ)
serialize version trie =
    map_result (construct_buffer version)
      (serialize_levels (height trie) 0 (root_descriptor trie ∷ []) 1 0)
