-- ===== src/Tests/Mounting.antt =====
-- Concrete storages with mounted volumes.
use yet_another_storage.Prelude.{ℕ, ◌+◌, ◌≤◌, ◌≡◌, refl, length, some, List, [], ◌∷◌, inl, arith}
use yet_another_storage.Errors.{key_not_found, is_success}
use yet_another_storage.Exec.{ok}
use yet_another_storage.Entries.Types.{int32, simple}
use yet_another_storage.Trie
use yet_another_storage.Trie.{is_exist_leaf}
use yet_another_storage.Index
use yet_another_storage.Index.{new_index}
use yet_another_storage.Index.Refinement.{get-new_index}
use yet_another_storage.Volume.{value, unexpected, failure, succeeded}
use yet_another_storage.Storage.{
  VolumeCalls, MountPoint, Storage, new_storage, group_bits, no_catalog, add_new_mount_point,
  get_volume_group_range, catalog_key, put, insert_mount, reversed,
}
use yet_another_storage.Storage.Mounts.{IsWellFormed, AllSorted, add_new_mount_point-IsWellFormed}
use yet_another_storage.Storage.Order.{Ranged, get_volume_group_range-Ranged}
use yet_another_storage.Storage.Lookup.{put-mount, shadowed-mount, empty_catalog-mount}

-- Volumes that count the calls and take every value.
abbrev calls : VolumeCalls ℕ
calls = record {
  put = λ pv key v w. (succeeded, w + 1);
  get = λ pv key w. (unexpected (failure "" key_not_found), w + 1);
  has_key = λ pv key w. (succeeded, w + 1);
  has_catalog = λ pv key w. (succeeded, w + 1);
  delete = λ pv key w. (succeeded, w + 1);
  set_expired_date = λ pv key t w. (succeeded, w + 1);
  get_expired_date = λ pv key w. (value 5, w + 1);
  priority = λ pv w. pv;
}

abbrev point : MountPoint
point = record { pv_manager = 3; mount_catalog = 47 ∷ 112 ∷ []; priority = 2 }

new_storage-IsWellFormed : IsWellFormed new_storage
unfolding new_storage AllSorted
new_storage-IsWellFormed = record {
  numbered = λ key. inl (get-new_index group_bits key);
  sorted = tt;
}

add_new_mount_point-IsWellFormed_example :
    (s' : Storage) × (add_new_mount_point point (47 ∷ 97 ∷ []) new_storage ≡ (ok succeeded, s'))
    × IsWellFormed s'
unfolding new_storage
add_new_mount_point-IsWellFormed_example =
    add_new_mount_point-IsWellFormed point (47 ∷ 97 ∷ []) new_storage new_storage-IsWellFormed
      (omega arith)

put-mount_example :
    (s' : Storage) × (add_new_mount_point point (47 ∷ 97 ∷ []) new_storage ≡ (ok succeeded, s'))
    × (get_volume_group_range s' (47 ∷ 97 ∷ 98 ∷ []) ≡ ok (value (point ∷ [])))
    × (catalog_key s' (47 ∷ 97 ∷ 98 ∷ []) ≡ 98 ∷ [])
    × (put calls s' (47 ∷ 97 ∷ 98 ∷ []) (some (simple int32 42)) 0 ≡ (ok succeeded, 1))
unfolding new_storage is_success Index.find_max_sub_key new_index Trie.find_max_sub_key
put-mount_example =
    put-mount point new_storage 47 calls (97 ∷ []) (98 ∷ []) (some (simple int32 42)) 0
      (get-new_index group_bits (47 ∷ 97 ∷ [])) (omega arith) (omega arith)

shadowed-mount_example :
    (s' : Storage) × (add_new_mount_point point (47 ∷ 97 ∷ 98 ∷ []) new_storage
      ≡ (ok succeeded, s'))
    × (get_volume_group_range s' (47 ∷ 97 ∷ []) ≡ ok (unexpected no_catalog))
unfolding new_storage
shadowed-mount_example =
    shadowed-mount point new_storage 47 (97 ∷ []) 98 []
      (get-new_index group_bits (47 ∷ 97 ∷ 98 ∷ [])) (get-new_index group_bits (47 ∷ 97 ∷ []))

empty_catalog-mount_example :
    (s' : Storage) × (add_new_mount_point point [] new_storage ≡ (ok succeeded, s'))
    × ((key : List ℕ) → get_volume_group_range s' key ≡ get_volume_group_range new_storage key)
empty_catalog-mount_example = empty_catalog-mount point new_storage new_storage-IsWellFormed

-- Two volumes under one catalog.
abbrev high_point : MountPoint
high_point = record { pv_manager = 4; mount_catalog = 47 ∷ []; priority = 7 }

mount_twice-IsWellFormed :
    (s : Storage) (m : MountPoint)
    → IsWellFormed s
    → length s.virtual_storage ≤ 1
    → IsWellFormed (add_new_mount_point m (47 ∷ 97 ∷ []) s).1
mount_twice-IsWellFormed s m w few =
    let (s', e, w') = add_new_mount_point-IsWellFormed m (47 ∷ 97 ∷ []) s w (omega arith) in rw e w'

abbrev mounted : Storage
mounted = (add_new_mount_point high_point (47 ∷ 97 ∷ []) new_storage).1

abbrev mounted_twice : Storage
mounted_twice = (add_new_mount_point point (47 ∷ 97 ∷ []) mounted).1

mounted_twice-IsWellFormed : IsWellFormed mounted_twice
mounted_twice-IsWellFormed =
    mount_twice-IsWellFormed mounted point
      (mount_twice-IsWellFormed new_storage high_point new_storage-IsWellFormed
        (unfold new_storage in omega arith))
      (unfold add_new_mount_point new_storage new_index Index.get Index.insert Trie.get Trie.insert
          is_exist_leaf in
        omega arith)

get_volume_group_range-Ranged_example :
    Ranged mounted_twice
      (47 ∷ 97 ∷ 98 ∷ [])
      (get_volume_group_range mounted_twice (47 ∷ 97 ∷ 98 ∷ []))
get_volume_group_range-Ranged_example =
    get_volume_group_range-Ranged mounted_twice (47 ∷ 97 ∷ 98 ∷ []) mounted_twice-IsWellFormed

range_of_two :
    get_volume_group_range mounted_twice (47 ∷ 97 ∷ 98 ∷ []) ≡ ok (value (high_point ∷ point ∷ []))
unfolding get_volume_group_range add_new_mount_point insert_mount reversed new_storage new_index
    Index.get Index.insert Index.find_max_sub_key Trie.find_max_sub_key Trie.get Trie.insert
    is_exist_leaf
range_of_two = refl
