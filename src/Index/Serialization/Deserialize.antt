-- ===== src/Index/Serialization/Deserialize.antt =====
-- `Deserialize` of AhoCorasickSerializationHelper.hpp. A pointer to a node of the trie under
-- construction is the path to it. A node whose route is reset while it is there would leave
-- pointers to it behind: the model does not go on then, which data of `Serialize` never causes. A
-- map that was moved from is empty, as in the common libraries.
use yet_another_storage.Prelude.{
  ℕ, zero, suc, ◌+◌, ◌-◌, Bool, true, false, not, Option, none, some, List, [], ◌∷◌, ◌++◌, length,
  drop, ltb, ◌==◌, if◌then◌else◌,
}
use yet_another_storage.Errors.{
  yas, inverted_index_deserialization_error,
  inverted_index_deserialization_version_unsupported_error,
}
use yet_another_storage.Exec.{Result, ok, throw, fault, dangling}
use yet_another_storage.Utils.Version.{Version, version_lt}
use yet_another_storage.Bytes.Packed.{Packed, sizeof, load_from_bytes}
use yet_another_storage.Trie.{Node, node, leaf, routes, find_route, set_route, new_node, set_leaf}
use yet_another_storage.Trie.Paths.{has_path}
use yet_another_storage.Index.Serialization.{
  id_bits, is_exist_id, NodeSerialization, node_serialization, LeafSerialization,
  leaf_serialization, DataHeader, data_header,
}

-- `LoadFromBytes` at a cursor, which is the bytes from it on: what is loaded and the cursor
-- behind it, or nothing if too few bytes are left.
unfoldable pub load : {H : Type 0} → Packed H → List ℕ → Option (H × List ℕ)
load P cursor =
    if ltb (length cursor) (sizeof P.widths)
    then none
    else some (load_from_bytes P cursor, drop (sizeof P.widths) cursor)

-- The unordered maps by id: `find`, and `emplace`, which keeps a value that is there.
unfoldable pub find : {A : Type 0} → ℕ → List (ℕ × A) → Option A
find id [] = none
find id ((k, a) ∷ m) = if k == id then some a else find id m

unfoldable pub emplace : {A : Type 0} → ℕ → A → List (ℕ × A) → List (ℕ × A)
emplace id a m = elim (find id m) [ none ↦ (id, a) ∷ m | some b ↦ m ]

-- `deserializeDataHeader`
unfoldable pub deserialize_data_header : Version → List ℕ → Result (DataHeader × List ℕ)
deserialize_data_header version cursor = elim (load data_header cursor) [
  | none ↦ throw (
      yas "Invalid data size: data size less than size of SerializedDataHeader"
        inverted_index_deserialization_error)
  | some (header, rest) ↦
      if version_lt version header.version
      then throw (
          yas "Corrupted header: header version unsupported"
            inverted_index_deserialization_version_unsupported_error)
      else if not (8 == header.id_type_size)
      then throw
          (yas "Corrupted header: size of IdType mismath" inverted_index_deserialization_error)
      else ok (header, rest)
]

-- `deserializeLeafDescriptors`: the test for missing bytes compares the cursor with the beginning
-- of all leaves, so it finds them only at the first one; behind it the descriptor stays as it
-- is, which is not initialised.
unfoldable pub deserialize_leafs :
    (ℕ → LeafSerialization) → Bool → ℕ → List ℕ → List (ℕ × ℕ) → Result (List (ℕ × ℕ) × List ℕ)
deserialize_leafs uninitialised is_begin zero cursor leafs = ok (leafs, cursor)
deserialize_leafs uninitialised is_begin (suc count) cursor leafs =
    elim (load leaf_serialization cursor) [
      | none ↦
          let d = uninitialised count in
          let rest =
            deserialize_leafs uninitialised false count cursor (emplace d.node_id d.leaf leafs) in
          if is_begin
          then throw
              (yas "leafs count don't corresponds to header" inverted_index_deserialization_error)
          else rest
      | some (d, rest) ↦
          deserialize_leafs uninitialised false count rest (emplace d.node_id d.leaf leafs)
    ]

-- What the loop over the nodes works on: the nodes of the level above and of this one by their
-- ids, each as the path to it, and the trie under construction.
pub record Building : Type 0 where
  pub depth_level : ℕ
  pub previous_level_nodes : List (ℕ × List ℕ)
  pub current_level_nodes : List (ℕ × List ℕ)
  pub trie : Node

-- The step to the next level.
unfoldable pub enter_level : ℕ → Building → Building
enter_level depth_level b =
    if ltb b.depth_level depth_level
    then record b {
      depth_level = b.depth_level + 1;
      previous_level_nodes = b.current_level_nodes;
      current_level_nodes = [];
    }
    else b

-- `routes_[ch].reset(new CharNode())` at the node that a path leads to.
unfoldable pub reset_route : List ℕ → ℕ → Node → Node
reset_route [] ch t = node (set_route ch (new_node id_bits) (routes t)) (leaf t)
reset_route (c ∷ path) ch t = elim (find_route c (routes t)) [
  | none ↦ t
  | some m ↦ node (set_route c (reset_route path ch m) (routes t)) (leaf t)
]

-- The write to the leaf of the new node.
unfoldable pub set_route_leaf :
    NodeSerialization → List (ℕ × ℕ) → List ℕ → Building → Result Building
set_route_leaf d leafs path b =
    if not (is_exist_id d.leaf_id) then ok b else elim (find d.node_id leafs) [
      | none ↦
          throw
            (yas "Corrupt data: node's leaf can't be found" inverted_index_deserialization_error)
      | some l ↦ ok (record b { trie = set_leaf id_bits path l b.trie })
    ]

-- A node below the parent that a path leads to.
unfoldable pub place_below : NodeSerialization → List (ℕ × ℕ) → List ℕ → Building → Result Building
place_below d leafs parent b =
    let path = parent ++ (d.parent_node_ch ∷ []) in
    if has_path path b.trie
    then fault dangling
    else set_route_leaf d leafs path (record b {
      current_level_nodes = emplace d.node_id path b.current_level_nodes;
      trie = reset_route parent d.parent_node_ch b.trie;
    })

-- The body of the loop over the nodes, behind the read of the descriptor.
unfoldable pub place_node : NodeSerialization → List (ℕ × ℕ) → Building → Result Building
place_node d leafs b =
    let b' = enter_level d.depth_level b in
    elim (find d.parent_node_id b'.previous_level_nodes) [
      | none ↦
          throw
            (yas "Corrupt data: parent node can't be found" inverted_index_deserialization_error)
      | some parent ↦ place_below d leafs parent b'
    ]

-- The loop over the nodes.
unfoldable pub deserialize_nodes : List (ℕ × ℕ) → ℕ → List ℕ → Building → Result Node
deserialize_nodes leafs zero cursor b = ok b.trie
deserialize_nodes leafs (suc count) cursor b = elim (load node_serialization cursor) [
  | none ↦ throw (
      yas "Invalid data size: there is a mismatch with size of data and descriptors count"
        inverted_index_deserialization_error)
  | some (d, rest) ↦ elim (place_node d leafs b) [
    | ok b' ↦ deserialize_nodes leafs count rest b'
    | throw e ↦ throw e
    | fault e ↦ fault e
  ]
]

-- `Deserialize` behind the leaves.
unfoldable pub deserialize_root : List (ℕ × ℕ) → ℕ → List ℕ → Result Node
deserialize_root leafs nodes_count cursor = elim (load node_serialization cursor) [
  | none ↦ throw (
      yas "Invalid data size: there is a mismatch with size of data and descriptors count"
        inverted_index_deserialization_error)
  | some (d, rest) ↦
      if not (d.node_id == d.parent_node_id)
      then throw (
          yas "Corrupt data: root must be the first node in the serialized descriptors list"
            inverted_index_deserialization_error)
      else deserialize_nodes leafs (nodes_count - 1) rest (record {
        depth_level = 1;
        previous_level_nodes = (d.node_id, []) ∷ [];
        current_level_nodes = [];
        trie = new_node id_bits;
      })
]

-- `Deserialize` behind the header.
unfoldable pub deserialize_body : (ℕ → LeafSerialization) → DataHeader → List ℕ → Node → Result Node
deserialize_body uninitialised header cursor engine =
    if header.nodes_count == 0
    then ok engine
    else elim (deserialize_leafs uninitialised true header.leafs_count cursor []) [
      | ok (leafs, rest) ↦ deserialize_root leafs header.nodes_count rest
      | throw e ↦ throw e
      | fault e ↦ fault e
    ]

-- `Deserialize`: the trie that the engine holds afterwards.
unfoldable pub deserialize : (ℕ → LeafSerialization) → Version → List ℕ → Node → Result Node
deserialize uninitialised version bytes engine = elim (deserialize_data_header version bytes) [
  | ok (header, rest) ↦ deserialize_body uninitialised header rest engine
  | throw e ↦ throw e
  | fault e ↦ fault e
]
