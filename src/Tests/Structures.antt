-- ===== src/Tests/Structures.antt =====
-- Concrete tries, indexes, bins, bytes, versions and times.
use yet_another_storage.Prelude.{
  ◌+◌, length, ℕ, ◌-◌, ◌^◌, ◌≤◌, ◌<◌, ◌≡◌, ◌≢◌, refl, min, true, List, [], ◌∷◌, take, arith, ◌↔◌,
}
use yet_another_storage.Utils.Version.{Version}
use yet_another_storage.Utils.Time.{
  Time, of_time_t, get_time, is_expired, is_expired_iff, get_time-of_time_t, get_time-of_time_t_ne,
}
use yet_another_storage.Trie
use yet_another_storage.Trie.{Node, new_node, non_exist_leaf}
use yet_another_storage.Trie.Lookup
use yet_another_storage.Trie.Lookup.{key_eq}
use yet_another_storage.Trie.Paths
use yet_another_storage.Trie.Paths.{has_path, common_prefix}
use yet_another_storage.Index
use yet_another_storage.Index.{InvertedIndex, new_index}
use yet_another_storage.Index.Refinement
use yet_another_storage.Index.Refinement.{Change, run_index, run_map}
use yet_another_storage.Freelist.{
  new_bins, push_free_entry, pop_free_entry_offset, set_offset_at, get_bin_id_for_size,
  non_exist_offset,
}
use yet_another_storage.Freelist.Bins.{HasLimits}
use yet_another_storage.Freelist.PushPop
use yet_another_storage.Freelist.PushPop.{Popped}
use yet_another_storage.Bytes.Slice.{slice}
use yet_another_storage.Bytes.Cursor.{save_at, load_at, load_at-save_at}
use yet_another_storage.Layout.{PvState, pv_state, CommonTypeHeader}

-- The keys "/a" and "/ab".
abbrev k1 : List ℕ
k1 = 47 ∷ 97 ∷ []

abbrev k2 : List ℕ
k2 = 47 ∷ 97 ∷ 98 ∷ []

abbrev trie : Node
trie = Trie.insert 64 k2 7 (new_node 64)

-- Tries.
get-insert_example : Trie.get 64 k2 (Trie.insert 64 k1 5 trie) ≡ 7
unfolding key_eq Trie.get Trie.insert
get-insert_example = Lookup.get-insert 64 k1 k2 5 trie

get-delete_example : Trie.get 64 k2 (Trie.delete 64 k2 trie).0 ≡ non_exist_leaf 64
unfolding key_eq
get-delete_example = Lookup.get-delete 64 k2 k2 trie

find_max_sub_key-insert_example : Trie.find_max_sub_key k2 (Trie.insert 64 k1 5 (new_node 64)) ≡ 2
unfolding Trie.find_max_sub_key common_prefix new_node
find_max_sub_key-insert_example = Paths.find_max_sub_key-insert 64 k1 k2 5 (new_node 64)

find_max_sub_key-longest_iff_example :
    (2 ≤ Trie.find_max_sub_key k2 trie) ↔ ((2 ≤ length k2) × (has_path (take 2 k2) trie ≡ true))
find_max_sub_key-longest_iff_example = Paths.find_max_sub_key-longest_iff k2 2 trie

-- Indexes.
abbrev changes : List Change
changes = Change.put k1 3 ∷ Change.put k2 4 ∷ Change.remove k1 ∷ []

get-run_index_example :
    Index.get 64 k2 (run_index 64 changes (new_index 64))
    ≡ run_map 64 changes (λ _. non_exist_leaf 64) k2
get-run_index_example =
    Refinement.get-run_index 64 changes (new_index 64) (λ _. non_exist_leaf 64)
      (Refinement.get-new_index 64) k2

unchanged-run_index_example : run_index 64 (Change.put [] 3 ∷ []) (new_index 64) ≡ new_index 64
unchanged-run_index_example =
    Refinement.unchanged-run_index 64 (Change.put [] 3 ∷ []) (new_index 64)
      (unfold run_index Index.insert new_index in refl)

-- Bins.
new_bins-HasLimits : HasLimits new_bins
unfolding new_bins
new_bins-HasLimits = record { same = refl }

pop-push_example :
    pop_free_entry_offset 60 (push_free_entry 512 60 new_bins).1
    ≡ (512, set_offset_at (get_bin_id_for_size 60 new_bins) non_exist_offset new_bins)
pop-push_example = PushPop.pop-push 512 60 new_bins new_bins-HasLimits (omega arith) (omega arith)

pop_free_entry_offset-Popped_example :
    Popped 60
      (push_free_entry 512 100 new_bins).1
      (pop_free_entry_offset 60 (push_free_entry 512 100 new_bins).1)
pop_free_entry_offset-Popped_example =
    PushPop.pop_free_entry_offset-Popped 60 (push_free_entry 512 100 new_bins).1

abbrev offsets : List ℕ
offsets = 1 ∷ 2 ∷ 3 ∷ 4 ∷ 5 ∷ 6 ∷ 7 ∷ 8 ∷ 9 ∷ 10 ∷ 11 ∷ []

abbrev state : PvState
state = record { value_type = 4; value_state = 1 }

abbrev buffer : List ℕ
buffer = 9 ∷ 9 ∷ 9 ∷ 9 ∷ []

abbrev blank : PvState
blank = record { value_type = 0; value_state = 0 }

load_at-save_at_example :
    (load_at pv_state 1 (save_at pv_state 1 state buffer).0 blank ≡ (state, 3))
    × ((save_at pv_state 1 state buffer).1 ≡ 3)
    × (length (save_at pv_state 1 state buffer).0 ≡ 4)
    × ((q n : ℕ) → q + n ≤ 1 → slice q n (save_at pv_state 1 state buffer).0 ≡ slice q n buffer)
    × ((q n : ℕ) → 3 ≤ q → slice q n (save_at pv_state 1 state buffer).0 ≡ slice q n buffer)
load_at-save_at_example = load_at-save_at pv_state state blank 1 buffer (omega arith) (omega arith)

abbrev header : CommonTypeHeader
header = record {
  value_type = 4;
  value_state = 0;
  expired_time_high = 0;
  expired_time_low = 0;
  value = 42;
}

-- Times and versions.
is_expired_iff_example :
    (is_expired (of_time_t 1000) 1001 ≡ true) ↔ (min 1000 (2 ^ 48 - 1) < min 1001 (2 ^ 48 - 1))
is_expired_iff_example = is_expired_iff 1000 1001 (omega arith) (omega arith)

get_time-of_time_t_example : get_time (of_time_t 1600000000) ≡ 1600000000
get_time-of_time_t_example = get_time-of_time_t 1600000000 (omega arith)

get_time-of_time_t_ne_example : get_time (of_time_t 4294967296) ≢ 4294967296
get_time-of_time_t_ne_example = get_time-of_time_t_ne 4294967296 (omega arith) (omega arith)

abbrev early : Time
early = record { expired_time_high = 0; expired_time_low = 5 }

abbrev version_1_0 : Version
version_1_0 = record { major = 1; minor = 0 }
