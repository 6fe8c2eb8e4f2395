-- ===== src/Index/Saved.antt =====
-- `Serialize` and `Deserialize` of InvertedIndexHelper.hpp.
use yet_another_storage.Prelude.{ℕ, ◌-◌, ◌^◌, ◌<◌, ◌≡◌, refl, ◌∙◌, false, List, [], ◌∷◌}
use yet_another_storage.Exec.{Result, ok}
use yet_another_storage.Utils.Version.{Version, version_lt}
use yet_another_storage.Trie
use yet_another_storage.Trie.{Node, new_node, non_exist_leaf}
use yet_another_storage.Index.{InvertedIndex, new_index, get}
use yet_another_storage.Index.Refinement.{Change, run_index, run_map, get-run_index, get-new_index}
use yet_another_storage.Index.Serialization.{id_bits, LeafSerialization}
use yet_another_storage.Index.Serialization.Serialize
use yet_another_storage.Index.Serialization.Serialize.{map_result}
use yet_another_storage.Index.Serialization.Deserialize
use yet_another_storage.Index.Serialization.Visits.{size}
use yet_another_storage.Index.Serialization.Ranges.{IsSerializable}
use yet_another_storage.Index.Serialization.RoundTrip.{deserialize-serialize}
use yet_another_storage.Index.Serialization.Keeping.{
  AllInBounds, run_index-IsSerializable, new_index-IsSerializable,
}

-- `Serialize`
unfoldable pub serialize : Version → InvertedIndex → Result (List ℕ)
serialize version index = Serialize.serialize version index.engine

-- `Deserialize`: into a new engine, and the index is not changed.
unfoldable pub deserialize : (ℕ → LeafSerialization) → List ℕ → Version → Result InvertedIndex
deserialize uninitialised bytes version =
    map_result (λ e. record { engine = e; is_changed = false })
      (Deserialize.deserialize uninitialised version bytes (new_node id_bits))

get-eq :
    (y x : InvertedIndex)
    → ((c : ℕ) (k : List ℕ) → Trie.get id_bits (c ∷ k) y.engine ≡ Trie.get id_bits (c ∷ k) x.engine)
    → (k : List ℕ) → get id_bits k y ≡ get id_bits k x
unfolding get
get-eq y x same [] = refl
get-eq y x same (c ∷ k) = same c k

-- The index that `Deserialize` makes of what `Serialize` has saved, with no smaller version, is not
-- changed, and `Get` of it is `Get` of the saved one, for every key.
pub deserialize-serialize_get :
    (u : ℕ → LeafSerialization) (version supported : Version) (x : InvertedIndex)
    → IsSerializable x.engine
    → size x.engine < 2 ^ 64 - 1
    → version.major < 2 ^ 8
    → version.minor < 2 ^ 8
    → version_lt supported version ≡ false
    → (bytes : List ℕ) × (y : InvertedIndex) × (serialize version x ≡ ok bytes)
      × (deserialize u bytes supported ≡ ok y)
      × (y.is_changed ≡ false)
      × ((k : List ℕ) → get id_bits k y ≡ get id_bits k x)
unfolding serialize deserialize
deserialize-serialize_get u version supported x s h a b l =
    let (bytes, restored, saved, read, same) =
      deserialize-serialize u version supported x.engine (new_node id_bits) s h a b l in
    let y : InvertedIndex = record { engine = restored; is_changed = false } in
    (bytes, y, saved, rw read refl, refl, get-eq y x (λ c k. (same c k).0))

-- An index that any calls of `Insert` and `Delete` with keys of bytes and leaves of 64 bits make of a
-- new one, with fewer than 2^64 - 1 nodes, is serialized, and the index that `Deserialize`, with no
-- smaller version, makes of the bytes answers `Get` of every key as the abstract map does after the
-- same calls.
pub deserialize-run_index :
    (u : ℕ → LeafSerialization) (version supported : Version) (cs : List Change)
    → AllInBounds cs
    → size (run_index id_bits cs (new_index id_bits)).engine < 2 ^ 64 - 1
    → version.major < 2 ^ 8
    → version.minor < 2 ^ 8
    → version_lt supported version ≡ false
    → (bytes : List ℕ) × (y : InvertedIndex) × (serialize version
          (run_index id_bits cs (new_index id_bits))
        ≡ ok bytes)
      × (deserialize u bytes supported ≡ ok y)
      × ((k : List ℕ) → get id_bits k y ≡ run_map id_bits cs (λ _. non_exist_leaf id_bits) k)
deserialize-run_index u version supported cs fit h a b l =
    let built = run_index id_bits cs (new_index id_bits) in
    let keeps = run_index-IsSerializable cs (new_index id_bits) fit new_index-IsSerializable in
    let (bytes, y, saved, read, unchanged, same) =
      deserialize-serialize_get u version supported built keeps h a b l in
    let map =
      get-run_index id_bits cs (new_index id_bits) (λ _. non_exist_leaf id_bits)
        (get-new_index id_bits) in
    (bytes, y, saved, read, λ k. same k ∙ map k)
