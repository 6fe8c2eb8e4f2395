-- ===== src/Storage/Lookup.antt =====
-- Which mounted volumes the operations of Storage.hpp reach.
use yet_another_storage.Prelude.{
  ℕ, zero, suc, ◌-◌, ◌%◌, ◌^◌, ◌≤◌, ◌<◌, ◌≡◌, refl, ◌∙◌, false, Option, some, List, [], ◌∷◌, ◌++◌,
  length, take, get_elem?, ◌==◌, if◌then◌else◌, arith, Bool-cases, inl, inr,
}
use yet_another_storage.Errors.{is_success, key_not_found}
use yet_another_storage.Exec.{ok}
use yet_another_storage.Bytes.Slice.{take-length, take-append, drop-append}
use yet_another_storage.Entries.Types.{StorageValue}
use yet_another_storage.Trie
use yet_another_storage.Trie.{is_exist_leaf, non_exist_leaf}
use yet_another_storage.Trie.Lookup
use yet_another_storage.Trie.Lookup.{key_eq, key_eq_iff}
use yet_another_storage.Trie.Paths.{
  common_prefix, find_max_sub_key-insert, find_max_sub_key-le-length,
}
use yet_another_storage.Index
use yet_another_storage.Index.{InvertedIndex}
use yet_another_storage.Volume.{value, unexpected, failure, succeeded}
use yet_another_storage.Storage.{
  VolumeCalls, MountPoint, VolumeGroup, Storage, group_bits, reversed, no_catalog,
  add_new_mount_point, get_volume_group_range, catalog_key, first_success, put,
}
use yet_another_storage.Storage.Mounts.{IsWellFormed}

common_prefix-append : (k r : List ℕ) → common_prefix k (k ++ r) ≡ length k
unfolding common_prefix
common_prefix-append [] r = refl
common_prefix-append (c ∷ k) r = ground (arith, common_prefix-append k r)

common_prefix-append_left : (k r : List ℕ) → common_prefix (k ++ r) k ≡ length k
unfolding common_prefix
common_prefix-append_left [] [] = refl
common_prefix-append_left [] (d ∷ r) = refl
common_prefix-append_left (c ∷ k) r = ground (arith, common_prefix-append_left k r)

get_elem?-append_self :
    (groups : List VolumeGroup) (g : VolumeGroup)
    → get_elem? (groups ++ (g ∷ [])) (length groups) ≡ some g
get_elem?-append_self [] g = refl
get_elem?-append_self (h ∷ groups) g = get_elem?-append_self groups g

get_elem?-append_old :
    (groups : List VolumeGroup) (g : VolumeGroup) (i : ℕ)
    → i < length groups
    → get_elem? (groups ++ (g ∷ [])) i ≡ get_elem? groups i
get_elem?-append_old [] g i h = absurd (omega arith)
get_elem?-append_old (h ∷ groups) g zero l = refl
get_elem?-append_old (h ∷ groups) g (suc i) l = get_elem?-append_old groups g i (omega arith)

key_ne_longer : (k : List ℕ) (e : ℕ) (b : List ℕ) → key_eq (k ++ (e ∷ b)) k ≡ false
unfolding key_eq
key_ne_longer [] e b = refl
key_ne_longer (c ∷ k) e b = ground (arith, key_ne_longer k e b)

-- A storage with a mount point under a catalog that was not in use.
abbrev pub mounted : MountPoint → List ℕ → Storage → Storage
mounted m catalog s = record {
  virtual_storage = s.virtual_storage ++ ((m ∷ []) ∷ []);
  virtual_storage_index =
      (Index.insert group_bits catalog (length s.virtual_storage % 2 ^ 32)
        s.virtual_storage_index).0;
}

add_new_mount_point-new :
    (m : MountPoint) (catalog : List ℕ) (s : Storage)
    → Index.get group_bits catalog s.virtual_storage_index ≡ non_exist_leaf group_bits
    → add_new_mount_point m catalog s ≡ (ok succeeded, mounted m catalog s)
unfolding add_new_mount_point is_exist_leaf
add_new_mount_point-new m catalog s e = rw e refl

-- `Put` where the range is a single mount point.
put-single :
    {S : Type 0} (calls : VolumeCalls S) (s : Storage) (m : MountPoint) (key r : List ℕ)
    (v : Option StorageValue) (w : S)
    → get_volume_group_range s key ≡ ok (value (m ∷ []))
    → catalog_key s key ≡ r
    → put calls s key v w ≡ (
        let asked = calls.put m.pv_manager (m.mount_catalog ++ r) v w in
        (ok (if is_success asked.0 then succeeded else failure "" key_not_found), asked.1))
unfolding put first_success
put-single calls s m key r v w range rest =
    let asked = calls.put m.pv_manager (m.mount_catalog ++ r) v w in
    rw (range, rest)
      (elim (Bool-cases (is_success asked.0)) [ inl e ↦ rw e refl | inr e ↦ rw e refl ])

module _ (m : MountPoint) (s : Storage) (c : ℕ) where
  find_max_sub_key-mounted :
      (k r : List ℕ)
      → Index.find_max_sub_key (c ∷ k ++ r) s.virtual_storage_index ≤ length (c ∷ k)
      → Index.find_max_sub_key (c ∷ k ++ r) (mounted m (c ∷ k) s).virtual_storage_index
        ≡ length (c ∷ k)
  unfolding Index.find_max_sub_key Index.insert
  find_max_sub_key-mounted k r h = omega (
    arith,
    find_max_sub_key-insert group_bits (c ∷ k) (c ∷ k ++ r) (length s.virtual_storage % 2 ^ 32)
        s.virtual_storage_index.engine,
    common_prefix-append (c ∷ k) r,
  )

  get-mounted :
      (k : List ℕ)
      → Index.get group_bits (c ∷ k) (mounted m (c ∷ k) s).virtual_storage_index
        ≡ length s.virtual_storage % 2 ^ 32
  unfolding Index.get Index.insert
  get-mounted k =
      Lookup.get-insert group_bits (c ∷ k) (c ∷ k) _ s.virtual_storage_index.engine
      ∙ rw ((key_eq_iff (c ∷ k) (c ∷ k)).1 refl) refl

  -- In a storage with fewer than 2^32 - 1 groups, after a volume is mounted under a catalog that
  -- is not empty and was not in use, `Put` of a key below the catalog asks that volume alone, with
  -- the mounted catalog of the volume in place of the storage's catalog, and succeeds exactly if
  -- the volume does. The condition is that the path of no catalog goes on along the key.
  pub put-mount :
      {S : Type 0} (calls : VolumeCalls S) (k r : List ℕ) (v : Option StorageValue) (w : S)
      → Index.get group_bits (c ∷ k) s.virtual_storage_index ≡ non_exist_leaf group_bits
      → Index.find_max_sub_key (c ∷ k ++ r) s.virtual_storage_index ≤ length (c ∷ k)
      → length s.virtual_storage < 2 ^ 32 - 1
      → (s' : Storage) × (add_new_mount_point m (c ∷ k) s ≡ (ok succeeded, s'))
        × (get_volume_group_range s' (c ∷ k ++ r) ≡ ok (value (m ∷ [])))
        × (catalog_key s' (c ∷ k ++ r) ≡ r)
        × (put calls s' (c ∷ k ++ r) v w ≡ (
            let asked = calls.put m.pv_manager (m.mount_catalog ++ r) v w in
            (ok (if is_success asked.0 then succeeded else failure "" key_not_found), asked.1)))
  unfolding get_volume_group_range catalog_key is_exist_leaf reversed
  put-mount calls k r v w new path room =
      let s' = mounted m (c ∷ k) s in
      let depth = find_max_sub_key-mounted k r path in
      let same = take-append (c ∷ k) r in
      let rest = drop-append (c ∷ k) r in
      let at : Index.get group_bits (c ∷ k) s'.virtual_storage_index ≡ length s.virtual_storage =
        get-mounted k ∙ omega arith in
      let exists : (length s.virtual_storage == 2 ^ 32 - 1) ≡ false = ground arith in
      let group = get_elem?-append_self s.virtual_storage (m ∷ []) in
      let range : get_volume_group_range s' (c ∷ k ++ r) ≡ ok (value (m ∷ [])) =
        rw (depth, same, at, exists, group) refl in
      let key : catalog_key s' (c ∷ k ++ r) ≡ r = rw (depth, rest) refl in
      (
        s',
        add_new_mount_point-new m (c ∷ k) s new,
        range,
        key,
        put-single calls s' m (c ∷ k ++ r) r v w range key,
      )

  -- When a volume is mounted under a catalog that is not in use and that goes on beyond a key,
  -- where the key is no mounted catalog itself, `getVolumeGroupRange` finds no group for the key
  -- afterwards, whatever catalogs above the key are mounted.
  pub shadowed-mount :
      (k : List ℕ) (e : ℕ) (b : List ℕ)
      → Index.get group_bits (c ∷ k ++ (e ∷ b)) s.virtual_storage_index ≡ non_exist_leaf group_bits
      → Index.get group_bits (c ∷ k) s.virtual_storage_index ≡ non_exist_leaf group_bits
      → (s' : Storage) × (add_new_mount_point m (c ∷ k ++ (e ∷ b)) s ≡ (ok succeeded, s'))
        × (get_volume_group_range s' (c ∷ k) ≡ ok (unexpected no_catalog))
  unfolding get_volume_group_range is_exist_leaf Index.find_max_sub_key Index.insert Index.get
  shadowed-mount k e b new absent =
      let catalog = c ∷ k ++ (e ∷ b) in
      let key = c ∷ k in
      let id = length s.virtual_storage % 2 ^ 32 in
      let engine = s.virtual_storage_index.engine in
      let depth : Trie.find_max_sub_key key (Trie.insert group_bits catalog id engine)
          ≡ length key =
        omega (
          arith,
          find_max_sub_key-insert group_bits catalog key id engine,
          common_prefix-append_left key (e ∷ b),
          find_max_sub_key-le-length key engine,
        ) in
      let whole : take (length key) key ≡ key = take-length key in
      let at : Trie.get group_bits key (Trie.insert group_bits catalog id engine)
          ≡ non_exist_leaf group_bits =
        Lookup.get-insert group_bits catalog key id engine ∙ rw (key_ne_longer key e b) absent in
      (mounted m catalog s, add_new_mount_point-new m catalog s new, rw (depth, whole, at) refl)

module _ (m : MountPoint) (s : Storage) where
  -- In a well-formed storage, a volume that is mounted under the empty catalog is never reached:
  -- the mount succeeds, and the range of every key is what it was.
  pub empty_catalog-mount :
      IsWellFormed s
      → (s' : Storage) × (add_new_mount_point m [] s ≡ (ok succeeded, s'))
        × ((key : List ℕ) → get_volume_group_range s' key ≡ get_volume_group_range s key)
  unfolding get_volume_group_range is_exist_leaf Index.insert
  empty_catalog-mount w = (
    mounted m [] s,
    add_new_mount_point-new m [] s (unfold Index.get in refl),
    λ key.
        let x = s.virtual_storage_index in
        elim (w.numbered (take (Index.find_max_sub_key key x) key)) [
          | inl e ↦ rw e refl
          | inr h ↦ rw (get_elem?-append_old s.virtual_storage (m ∷ []) _ h) refl
        ],
  )
