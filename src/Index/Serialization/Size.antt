-- ===== src/Index/Serialization/Size.antt =====
-- How many bytes `Serialize` makes of a trie.
use yet_another_storage.Prelude.{
  ℕ, ◌+◌, ◌-◌, ◌*◌, ◌^◌, ◌<◌, ◌≡◌, List, [], ◌∷◌, ◌++◌, length, arith, length-append,
}
use native.Mathlib.Nat.{suc-mul}
use yet_another_storage.Exec.{ok}
use yet_another_storage.Utils.Version.{Version}
use yet_another_storage.Bytes.Packed.{Packed, sizeof, save_as_bytes, length-save_as_bytes}
use yet_another_storage.Trie.{Node}
use yet_another_storage.Index.Serialization.{node_serialization, leaf_serialization, data_header}
use yet_another_storage.Index.Serialization.Serialize.{
  serialize, construct_buffer, height, save_all,
}
use yet_another_storage.Index.Serialization.Visits.{size}
use yet_another_storage.Index.Serialization.LeafCount.{
  leaf_count, total_leafs, length-all_levels_leafs,
}
use yet_another_storage.Index.Serialization.Cursor.{AllInRange}
use yet_another_storage.Index.Serialization.Ranges.{
  IsSerializable, length-all_levels, all_levels-AllInRange,
}
use yet_another_storage.Index.Serialization.Root.{
  root_visit, saved, Within-root, total-root, AllSerializable-root, serialize-eq-saved,
}
use yet_another_storage.Index.Serialization.RoundTrip.{header_of, construct_buffer-eq}

length-save_all :
    {H : Type 0} (P : Packed H) (hs : List H)
    → AllInRange P hs
    → length (save_all P hs) ≡ length hs * sizeof P.widths
unfolding save_all
length-save_all P [] i = omega arith
length-save_all P (h ∷ hs) i =
    let here = length-save_as_bytes P h i.0 in
    let rest = length-save_all P hs i.1 in
    let sum = length-append (save_as_bytes P h) (save_all P hs) in
    let step = suc-mul (length hs) (sizeof P.widths) in omega arith

-- `Serialize` of a trie that can be saved, with fewer than 2^64 - 1 nodes, returns, and the buffer
-- has exactly 19 bytes for the header, 33 for each node, and 16 for each node that holds a leaf.
pub serialize-returns :
    (version : Version) (trie : Node)
    → IsSerializable trie
    → size trie < 2 ^ 64 - 1
    → version.major < 2 ^ 8
    → version.minor < 2 ^ 8
    → (bytes : List ℕ) × (serialize version trie ≡ ok bytes)
      × (length bytes ≡ 19 + 16 * leaf_count trie + 33 * size trie)
serialize-returns version trie s h a b =
    let root = root_visit trie ∷ [] in
    let whole = total-root trie in
    let (ranges₀, ranges₁) =
      all_levels-AllInRange (height trie) 0 0 root 0 (omega arith) (omega arith) (omega arith)
        (AllSerializable-root trie s) in
    let nodes = (length-all_levels (height trie) 0 0 root 0 (Within-root trie)).0 in
    let leafs = length-all_levels_leafs (height trie) 0 0 root 0 (Within-root trie) in
    let all_leafs : total_leafs root ≡ leaf_count trie = unfold total_leafs in omega arith in
    let head = save_as_bytes data_header (header_of version (saved trie)) in
    let head_size =
      length-save_as_bytes data_header (header_of version (saved trie))
        (omega arith, (omega arith, (omega arith, (omega arith, (omega arith, tt))))) in
    let body₀ = save_all leaf_serialization (saved trie).0 in
    let body₁ = save_all node_serialization (saved trie).1 in
    let size₀ = length-save_all leaf_serialization (saved trie).0 ranges₀ in
    let size₁ = length-save_all node_serialization (saved trie).1 ranges₁ in
    let outer = length-append head (body₀ ++ body₁) in
    let inner = length-append body₀ body₁ in
    (
      construct_buffer version (saved trie),
      serialize-eq-saved version trie h,
      rw construct_buffer-eq (omega arith),
    )
