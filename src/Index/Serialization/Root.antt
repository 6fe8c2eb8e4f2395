-- ===== src/Index/Serialization/Root.antt =====
-- The root and what is below it, from `Serialize` to `Deserialize`.
use yet_another_storage.Prelude.{
  ℕ, suc, ◌-◌, ◌^◌, ◌<◌, ◌≡◌, refl, ap, ◌∙◌, true, List, [], ◌∷◌, ◌++◌, length, arith, ◌==◌,
}
use mathlib.Core.List.{append-nil}
use yet_another_storage.Exec.{ok}
use yet_another_storage.Utils.Version.{Version}
use yet_another_storage.Trie.{Node, routes, new_node, find_route}
use yet_another_storage.Index.Serialization.{id_bits, NodeSerialization, node_serialization}
use yet_another_storage.Index.Serialization.Serialize.{
  serialize, serialize_levels, construct_buffer, height, height_routes, Serialized, save_all,
  root_descriptor,
}
use yet_another_storage.Index.Serialization.Deserialize.{emplace, find, deserialize_root, Building}
use yet_another_storage.Index.Serialization.Peek.{peek}
use yet_another_storage.Index.Serialization.Visits.{
  Visit, next_visits, descriptors, leafs_of, node_of, next_lid, nodes_of, end_lid, all_levels, size,
  total, total-next_visits, Within, Within-next_visits, height-routes,
}
use yet_another_storage.Index.Serialization.Levels.{serialize_levels-descriptors}
use yet_another_storage.Index.Serialization.Cursor.{
  AllInRange, place_all, load-save_as_bytes, deserialize_nodes-save_all,
}
use yet_another_storage.Index.Serialization.LeafMap.{Covers}
use yet_another_storage.Index.Serialization.Ranges.{
  IsSerializable, AllSerializable, AllSerializable-next_visits,
}
use yet_another_storage.Index.Serialization.Answers.{
  hit, answer, Apart, Distinct, AtDepth, AtDepth-next_visits, answer-next_visits,
}
use yet_another_storage.Index.Serialization.Prefix.{under}
use yet_another_storage.Trie.Lookup.{key_eq}
use yet_another_storage.Index.Serialization.Fresh.{
  Fresh, Present, Shallow, Fresh-next_visits, Distinct-next_visits,
}
use yet_another_storage.Index.Serialization.Place.{building, register, Parents}
use yet_another_storage.Index.Serialization.PlaceLevel.{Parents-next_visits, FreeFrom-nil}
use yet_another_storage.Index.Serialization.PlaceLevels.{Placed, place_levels}

abbrev pub root_visit : Node → Visit
root_visit trie = record { visited = trie; path = []; parent_id = 0; parent_path = []; ch = b'/' }

abbrev pub saved : Node → Serialized
saved trie = all_levels (height trie) 0 0 (root_visit trie ∷ []) 0

-- What is saved of the levels below the root.
abbrev pub saved_below : Node → Serialized
saved_below trie =
    all_levels (height_routes (routes trie)) 1 1 (next_visits 0 (root_visit trie ∷ []))
      (next_lid 0 (root_visit trie))

pub saved-root :
    (trie : Node)
    → saved trie ≡ (
      leafs_of 0 (root_visit trie ∷ []) ++ (saved_below trie).0,
      node_of 0 0 0 (root_visit trie) ∷ (saved_below trie).1,
    )
unfolding all_levels end_lid nodes_of
saved-root trie = rw (height-routes trie) refl

pub Within-root : (trie : Node) → Within (height trie) (root_visit trie ∷ [])
unfolding Within
Within-root trie = (omega arith, tt)

pub total-root : (trie : Node) → total (root_visit trie ∷ []) ≡ size trie
unfolding total
total-root trie = omega arith

-- `Serialize` returns: the loop over the levels ends, and its result is the buffer of a header and
-- the descriptors, if the trie has fewer than 2^64 - 1 nodes.
pub serialize-eq-saved :
    (version : Version) (trie : Node)
    → size trie < 2 ^ 64 - 1
    → serialize version trie ≡ ok (construct_buffer version (saved trie))
unfolding serialize
serialize-eq-saved version trie h =
    let run : serialize_levels (height trie) 0 (descriptors 0 (root_visit trie ∷ [])) 1 0
        ≡ ok (saved trie) =
      serialize_levels-descriptors (height trie) 0 0 (root_visit trie ∷ []) 0 (Within-root trie)
        (omega arith) (omega arith) (omega (arith, total-root trie)) in
    let run' : serialize_levels (height trie) 0 (root_descriptor trie ∷ []) 1 0 ≡ ok (saved trie) =
      unfold descriptors in run in
    rw run' refl

AtDepth-root : (trie : Node) → AtDepth 0 (root_visit trie ∷ [])
unfolding AtDepth
AtDepth-root trie = (refl, tt)

Distinct-root : (trie : Node) → Distinct (root_visit trie ∷ [])
unfolding Distinct Apart
Distinct-root trie = (tt, tt)

pub AllSerializable-root :
    (trie : Node) → IsSerializable trie → AllSerializable 1 (root_visit trie ∷ [])
unfolding AllSerializable
AllSerializable-root trie s = (s, omega arith, omega arith, tt)

Shallow-new_node : Shallow 0 (new_node id_bits)
unfolding peek new_node find_route
Shallow-new_node [] h = absurd (omega arith)
Shallow-new_node (c ∷ j) h = refl

Fresh-root : (trie : Node) → Fresh (new_node id_bits) (next_visits 0 (root_visit trie ∷ []))
Fresh-root trie =
    Fresh-next_visits (new_node id_bits) 0 0 (root_visit trie ∷ []) Shallow-new_node
      (AtDepth-root trie) (unfold Present peek in (refl, tt))

Parents-root : (trie : Node) → Parents ((0, []) ∷ []) (next_visits 0 (root_visit trie ∷ []))
Parents-root trie =
    unfold register emplace find in
    (Parents-next_visits 0 (root_visit trie ∷ []) [] (FreeFrom-nil 0))

-- The keys behind the root.
answer-root :
    (trie : Node) (c : ℕ) (k : List ℕ)
    → answer (next_visits 0 (root_visit trie ∷ [])) (c ∷ k) (peek (c ∷ k) (new_node id_bits))
      ≡ peek (c ∷ k) trie
unfolding hit answer under key_eq
answer-root trie c k =
    answer-next_visits 0 0 (root_visit trie ∷ []) (c ∷ k) (peek (c ∷ k) (new_node id_bits))
      (AtDepth-root trie) (Distinct-root trie) (λ h. Shallow-new_node (c ∷ k) h)

-- The nodes below the root are placed, and the trie answers as the one that was saved.
Placed-root :
    (trie : Node) (leafs : List (ℕ × ℕ))
    → IsSerializable trie
    → size trie < 2 ^ 64
    → Covers leafs (saved_below trie).0
    → Placed leafs
        (saved_below trie).1
        (building 1 ((0, []) ∷ []) [] (new_node id_bits))
        (λ j. answer (next_visits 0 (root_visit trie ∷ [])) j (peek j (new_node id_bits)))
Placed-root trie leafs s h c =
    let root = root_visit trie ∷ [] in
    let counted = total-next_visits 0 root in
    let whole = total-root trie in
    place_levels leafs ((0, []) ∷ []) (height_routes (routes trie)) 0 1
      (next_lid 0 (root_visit trie)) 1 (next_visits 0 root) (new_node id_bits)
      (Within-next_visits (height_routes (routes trie)) 0 root
        (rw (← height-routes trie) (Within-root trie)))
      (AllSerializable-next_visits 1 1 0 root (omega arith) (AllSerializable-root trie s))
      (AtDepth-next_visits 0 0 root (AtDepth-root trie))
      (Distinct-next_visits 1 0 root (AllSerializable-root trie s) (Distinct-root trie))
      (Parents-root trie) c (ground arith) (omega arith) Shallow-new_node (Fresh-root trie)

deserialize_root-save_all :
    (leafs : List (ℕ × ℕ)) (d : NodeSerialization) (ds : List NodeSerialization) (b' : Building)
    → (d.node_id == d.parent_node_id) ≡ true
    → AllInRange node_serialization (d ∷ ds)
    → place_all leafs ds (building 1 ((d.node_id, []) ∷ []) [] (new_node id_bits)) ≡ ok b'
    → deserialize_root leafs (length (d ∷ ds)) (save_all node_serialization (d ∷ ds)) ≡ ok b'.trie
unfolding deserialize_root save_all
deserialize_root-save_all leafs d ds b' r i placed =
    let read =
      deserialize_nodes-save_all leafs ds []
        (building 1 ((d.node_id, []) ∷ []) [] (new_node id_bits)) b' i.1 placed in
    let read' = rw append-nil at read in
    let one_less : suc (length ds) - 1 ≡ length ds = omega arith in
    rw
      (
        load-save_as_bytes node_serialization d (save_all node_serialization ds) i.0,
        deserialize_root,
        r,
      )
      (rw one_less read')

pub deserialize_root-saved :
    (trie : Node) (leafs : List (ℕ × ℕ)) (count : ℕ)
    → IsSerializable trie
    → size trie < 2 ^ 64
    → Covers leafs (saved_below trie).0
    → AllInRange node_serialization (saved trie).1
    → count ≡ length (saved trie).1
    → (restored : Node) × (deserialize_root leafs count (save_all node_serialization (saved trie).1)
        ≡ ok restored)
      × ((c : ℕ) (k : List ℕ) → peek (c ∷ k) restored ≡ peek (c ∷ k) trie)
deserialize_root-saved trie leafs count s h c i n =
    let nodes = ap (λ (x : Serialized). x.1) (saved-root trie) in
    let (b, placed, sees) = Placed-root trie leafs s h c in
    (
      b.trie,
      rw (n, nodes)
          (deserialize_root-save_all leafs (node_of 0 0 0 (root_visit trie)) (saved_below trie).1 b
            (ground arith) (rw nodes at i) placed),
      λ ch k. sees (ch ∷ k) ∙ answer-root trie ch k,
    )
