-- ===== src/Index/Serialization/RoundTrip.antt =====
-- A saved trie is read back.
use yet_another_storage.Prelude.{
  ℕ, ◌-◌, ◌%◌, ◌^◌, ◌<◌, ◌≡◌, refl, ap, sym, ◌∙◌, subst, true, false, List, [], ◌∷◌, ◌++◌, length,
  arith, ◌==◌,
}
use yet_another_storage.Errors.{yas, inverted_index_deserialization_version_unsupported_error}
use yet_another_storage.Exec.{ok, throw}
use yet_another_storage.Utils.Version.{Version, version_lt}
use yet_another_storage.Bytes.Packed.{save_as_bytes}
use yet_another_storage.Trie.{Node, get}
use yet_another_storage.Trie.Paths.{has_path}
use yet_another_storage.Index.Serialization.{
  id_bits, node_serialization, LeafSerialization, leaf_serialization, DataHeader, data_header,
}
use yet_another_storage.Index.Serialization.Serialize.{
  serialize, construct_buffer, height, Serialized, save_all,
}
use yet_another_storage.Index.Serialization.Deserialize.{
  find, deserialize, deserialize_data_header, deserialize_body,
}
use yet_another_storage.Index.Serialization.Peek.{
  peek, is_some, has_path-eq-peek, get-eq-peek, leaf_or_none,
}
use yet_another_storage.Index.Serialization.Visits.{leafs_of, size, size-routes}
use yet_another_storage.Index.Serialization.Cursor.{
  load-save_as_bytes, collect, deserialize_leafs-save_all,
}
use yet_another_storage.Index.Serialization.LeafMap.{
  collect-Covers, Covers, Covers-append, all_levels-Increasing,
}
use yet_another_storage.Index.Serialization.Ranges.{
  IsSerializable, length-all_levels, all_levels-AllInRange,
}
use yet_another_storage.Index.Serialization.Root.{
  root_visit, saved, saved_below, saved-root, Within-root, total-root, AllSerializable-root,
  serialize-eq-saved, deserialize_root-saved,
}

-- The header of what is saved.
abbrev pub header_of : Version → Serialized → DataHeader
header_of version s = record {
  leafs_count = length s.0 % 2 ^ id_bits;
  nodes_count = length s.1 % 2 ^ id_bits;
  version = version;
  id_type_size = 8;
}

pub construct_buffer-eq :
    (version : Version) (s : Serialized)
    → construct_buffer version s
      ≡ save_as_bytes data_header (header_of version s)
        ++ (save_all leaf_serialization s.0 ++ save_all node_serialization s.1)
unfolding construct_buffer
construct_buffer-eq version (leafs, nodes) = refl

deserialize_data_header-buffer :
    (version supported : Version) (s : Serialized) (ys : List ℕ)
    → version.major < 2 ^ 8
    → version.minor < 2 ^ 8
    → version_lt supported version ≡ false
    → deserialize_data_header supported (save_as_bytes data_header (header_of version s) ++ ys)
      ≡ ok (header_of version s, ys)
unfolding deserialize_data_header
deserialize_data_header-buffer version supported s ys a b v =
    rw
      (
        load-save_as_bytes data_header (header_of version s) ys
            (omega arith, (omega arith, (omega arith, (omega arith, (omega arith, tt))))),
        deserialize_data_header,
      )
      (rw v refl)

deserialize_body-saved :
    (u : ℕ → LeafSerialization) (header : DataHeader) (trie engine : Node)
    → IsSerializable trie
    → size trie < 2 ^ 64
    → header.leafs_count ≡ length (saved trie).0
    → header.nodes_count ≡ length (saved trie).1
    → (restored : Node) × (deserialize_body u header
          (save_all leaf_serialization (saved trie).0 ++ save_all node_serialization (saved trie).1)
          engine
        ≡ ok restored)
      × ((c : ℕ) (k : List ℕ) → peek (c ∷ k) restored ≡ peek (c ∷ k) trie)
unfolding deserialize_body
deserialize_body-saved u header trie engine s h l n =
    let root = root_visit trie ∷ [] in
    let whole = total-root trie in
    let (ranges₀, ranges₁) =
      all_levels-AllInRange (height trie) 0 0 root 0 (omega arith) (omega arith) (omega arith)
        (AllSerializable-root trie s) in
    let (all_nodes, _) = length-all_levels (height trie) 0 0 root 0 (Within-root trie) in
    let leafs = collect (saved trie).0 [] in
    let covers =
      collect-Covers 0 (saved trie).0 [] (all_levels-Increasing (height trie) 0 0 root 0)
        (λ k _. unfold find in refl) in
    let below =
      Covers-append leafs (leafs_of 0 root) (saved_below trie).0
        (subst (Covers leafs) (ap (λ (x : Serialized). x.0) (saved-root trie)) covers) in
    let (restored, read, same) =
      deserialize_root-saved trie leafs header.nodes_count s h below.1 ranges₁ n in
    let some_nodes : (header.nodes_count == 0) ≡ false = ground (arith, size-routes trie) in
    (
      restored,
      rw (some_nodes, deserialize_body, l)
          (rw
            (deserialize_leafs-save_all u true (saved trie).0
              (save_all node_serialization (saved trie).1) [] ranges₀)
            read),
      same,
    )

-- What `Serialize` saves of a trie, `Deserialize` reads back: every key but the empty one has the
-- same leaf and is the same prefix of keys in the restored trie, for a trie of bytes and leaves of
-- eight bytes, with fewer than 2^64 - 1 nodes and no character twice at a node, if the version that
-- reads supports the one that wrote. What the engine held before and uninitialised memory
-- are not seen.
pub deserialize-serialize :
    (u : ℕ → LeafSerialization) (version supported : Version) (trie engine : Node)
    → IsSerializable trie
    → size trie < 2 ^ 64 - 1
    → version.major < 2 ^ 8
    → version.minor < 2 ^ 8
    → version_lt supported version ≡ false
    → (bytes : List ℕ) × (restored : Node) × (serialize version trie ≡ ok bytes)
      × (deserialize u supported bytes engine ≡ ok restored)
      × ((c : ℕ) (k : List ℕ)
          → (get id_bits (c ∷ k) restored ≡ get id_bits (c ∷ k) trie)
            × (has_path (c ∷ k) restored ≡ has_path (c ∷ k) trie))
unfolding deserialize
deserialize-serialize u version supported trie engine s h a b v =
    let root = root_visit trie ∷ [] in
    let whole = total-root trie in
    let (counts₁, counts₀) = length-all_levels (height trie) 0 0 root 0 (Within-root trie) in
    let header =
      deserialize_data_header-buffer version supported (saved trie)
        (save_all leaf_serialization (saved trie).0 ++ save_all node_serialization (saved trie).1) a
        b v in
    let (restored, read, same) =
      deserialize_body-saved u (header_of version (saved trie)) trie engine s (omega arith)
        (omega arith) (omega arith) in
    (
      construct_buffer version (saved trie),
      restored,
      serialize-eq-saved version trie h,
      rw (construct_buffer-eq, deserialize, header) read,
      λ c k. (
        get-eq-peek (c ∷ k) restored ∙ ap leaf_or_none (same c k) ∙ sym (get-eq-peek (c ∷ k) trie),
        has_path-eq-peek (c ∷ k) restored
            ∙ ap is_some (same c k)
            ∙ sym (has_path-eq-peek (c ∷ k) trie),
      ),
    )

-- A reader whose version is smaller than the one that wrote refuses the bytes of `Serialize` with
-- the error of an unsupported version.
pub deserialize-serialize_unsupported :
    (u : ℕ → LeafSerialization) (version supported : Version) (trie engine : Node)
    → size trie < 2 ^ 64 - 1
    → version.major < 2 ^ 8
    → version.minor < 2 ^ 8
    → version_lt supported version ≡ true
    → (bytes : List ℕ) × (serialize version trie ≡ ok bytes)
      × (deserialize u supported bytes engine
          ≡ throw (
              yas "Corrupted header: header version unsupported"
                inverted_index_deserialization_version_unsupported_error))
unfolding deserialize deserialize_data_header
deserialize-serialize_unsupported u version supported trie engine h a b v = (
  construct_buffer version (saved trie),
  serialize-eq-saved version trie h,
  rw
      (
        construct_buffer-eq,
        load-save_as_bytes data_header (header_of version (saved trie)) _
            (omega arith, (omega arith, (omega arith, (omega arith, (omega arith, tt))))),
        deserialize,
        deserialize_data_header,
      )
      (rw v refl),
)
