-- ===== src/Tests/Saving.antt =====
-- A concrete index that is saved and read back.
use yet_another_storage.Prelude.{ℕ, ◌≡◌, refl, List, [], ◌∷◌, length, arith}
use yet_another_storage.Errors.{yas, inverted_index_deserialization_version_unsupported_error}
use yet_another_storage.Exec.{ok, throw}
use yet_another_storage.Utils.Version.{Version, version_lt}
use yet_another_storage.Trie
use yet_another_storage.Trie.{
  Node, node, end, route, find_route, new_node, get, get_path_node, get_next_node, set_route,
  set_leaf, non_exist_leaf, is_exist_leaf,
}
use yet_another_storage.Trie.Paths.{has_path}
use yet_another_storage.Index
use yet_another_storage.Index.{InvertedIndex, new_index}
use yet_another_storage.Index.Refinement.{Change, put, remove, run_index, run_map}
use yet_another_storage.Index.Serialization.{id_bits, LeafSerialization}
use yet_another_storage.Index.Serialization.Serialize.{serialize}
use yet_another_storage.Index.Serialization.Deserialize.{deserialize}
use yet_another_storage.Index.Serialization.Visits.{size}
use yet_another_storage.Index.Serialization.LeafCount.{leaf_count}
use yet_another_storage.Index.Serialization.Ranges.{IsSerializable}
use yet_another_storage.Index.Serialization.RoundTrip.{
  deserialize-serialize, deserialize-serialize_unsupported,
}
use yet_another_storage.Index.Serialization.Size.{serialize-returns}
use yet_another_storage.Index.Saved
use yet_another_storage.Index.Saved.{deserialize-run_index}

-- The keys "ab" and "c".
abbrev pub two_keys : Node
two_keys =
    node
      (route 97 (node (route 98 (node end 16) end) 18446744073709551615)
        (route 99 (node end 40) end))
      18446744073709551615

pub two_keys-IsSerializable : IsSerializable two_keys
unfolding IsSerializable find_route
two_keys-IsSerializable = (
  omega arith,
  (
    omega arith,
    refl,
    (omega arith, (omega arith, refl, (omega arith, tt), tt)),
    (omega arith, refl, (omega arith, tt), tt),
  ),
)

abbrev version_1_0 : Version
version_1_0 = record { major = 1; minor = 0 }

abbrev version_0_9 : Version
version_0_9 = record { major = 0; minor = 9 }

abbrev pub garbage : ℕ → LeafSerialization
garbage n = record { node_id = 0; leaf = 0 }

deserialize-serialize_example :
    (bytes : List ℕ) × (restored : Node) × (serialize version_1_0 two_keys ≡ ok bytes)
    × (deserialize garbage version_1_0 bytes (new_node id_bits) ≡ ok restored)
    × ((c : ℕ) (k : List ℕ)
        → (get id_bits (c ∷ k) restored ≡ get id_bits (c ∷ k) two_keys)
          × (has_path (c ∷ k) restored ≡ has_path (c ∷ k) two_keys))
unfolding size version_lt
deserialize-serialize_example =
    deserialize-serialize garbage version_1_0 version_1_0 two_keys (new_node id_bits)
      two_keys-IsSerializable (omega arith) (omega arith) (omega arith) refl

deserialize-serialize_unsupported_example :
    (bytes : List ℕ) × (serialize version_1_0 two_keys ≡ ok bytes)
    × (deserialize garbage version_0_9 bytes (new_node id_bits)
        ≡ throw (
            yas "Corrupted header: header version unsupported"
              inverted_index_deserialization_version_unsupported_error))
unfolding size version_lt
deserialize-serialize_unsupported_example =
    deserialize-serialize_unsupported garbage version_1_0 version_0_9 two_keys (new_node id_bits)
      (omega arith) (omega arith) (omega arith) refl

serialize-returns_example :
    (bytes : List ℕ) × (serialize version_1_0 two_keys ≡ ok bytes) × (length bytes ≡ 183)
unfolding size leaf_count is_exist_leaf non_exist_leaf
serialize-returns_example =
    serialize-returns version_1_0 two_keys two_keys-IsSerializable (omega arith) (omega arith)
      (omega arith)

abbrev changes : List Change
changes = put (97 ∷ 98 ∷ []) 16 ∷ put (99 ∷ []) 40 ∷ remove (99 ∷ []) ∷ []

deserialize-run_index_example :
    (bytes : List ℕ) × (y : InvertedIndex) × (Saved.serialize version_1_0
        (run_index id_bits changes (new_index id_bits))
      ≡ ok bytes)
    × (Saved.deserialize garbage bytes version_1_0 ≡ ok y)
    × ((k : List ℕ)
        → Index.get id_bits k y ≡ run_map id_bits changes (λ _. non_exist_leaf id_bits) k)
unfolding size run_index Index.insert Index.delete Trie.insert Trie.delete get_path_node
    get_next_node find_route set_route set_leaf new_node new_index version_lt
deserialize-run_index_example =
    deserialize-run_index garbage version_1_0 version_1_0 changes
      (
        ((omega arith, (omega arith, tt)), omega arith),
        (((omega arith, tt), omega arith), ((omega arith, tt), tt)),
      )
      (omega arith) (omega arith) (omega arith) refl
