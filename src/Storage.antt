-- ===== src/Storage.antt =====
-- include/storage/Storage.hpp: the virtual storage, which has groups of mounted volumes under the
-- catalogs of an index of its own. `Mount` holds the storage's mutex alone; the other calls share it,
-- and a call here runs without another one between its calls of the volumes.
pub mod Mounts
pub mod Lookup
pub mod Order
use yet_another_storage.Prelude.{
  ℕ, suc, ◌%◌, ◌^◌, Bool, true, false, not, Option, none, some, List, [], ◌∷◌, ◌++◌, length, take,
  drop, set, get_elem?, ltb, ◌==◌, if◌then◌else◌,
}
use yet_another_storage.Errors.{
  StorageErrorDescriptor, StorageError, is_success, key_not_found, catalog_not_found_error,
  unknown_error,
}
use yet_another_storage.Exec.{Exec, Result, ok, throw, fault, out_of_bounds}
use yet_another_storage.Entries.Types.{StorageValue}
use yet_another_storage.Trie.{is_exist_leaf}
use yet_another_storage.Index
use yet_another_storage.Index.{InvertedIndex, new_index}
use yet_another_storage.Volume.{Expected, value, unexpected, failure, succeeded}

-- What the storage calls of `PVManager`. The volumes are shared with the factory and among the
-- mount points, so a call runs on the state of all of them; a number says which one is called.
pub record VolumeCalls (S : Type 0) : Type 0 where
  pub put : ℕ → List ℕ → Option StorageValue → S → StorageErrorDescriptor × S
  pub get : ℕ → List ℕ → S → Expected StorageValue × S
  pub has_key : ℕ → List ℕ → S → StorageErrorDescriptor × S
  pub has_catalog : ℕ → List ℕ → S → StorageErrorDescriptor × S
  pub delete : ℕ → List ℕ → S → StorageErrorDescriptor × S
  pub set_expired_date : ℕ → List ℕ → ℕ → S → StorageErrorDescriptor × S
  pub get_expired_date : ℕ → List ℕ → S → Expected ℕ × S
  pub priority : ℕ → S → ℕ

-- `PVMountPoint`. A priority is the 32 bits of the `int32_t`, since the source compares it as a
-- `uint32_t`.
pub record MountPoint : Type 0 where
  pub pv_manager : ℕ
  pub mount_catalog : List ℕ
  pub priority : ℕ

abbrev pub VolumeGroup : Type 0
VolumeGroup = List MountPoint

-- The bits of a group's number, which is the leaf type of the storage's index.
abbrev pub group_bits : ℕ
group_bits = 32

pub record Storage : Type 0 where
  pub virtual_storage : List VolumeGroup
  pub virtual_storage_index : InvertedIndex

-- The default constructor.
unfoldable pub new_storage : Storage
new_storage = record { virtual_storage = []; virtual_storage_index = new_index group_bits }

-- `VGReversedRange`
unfoldable pub reversed : VolumeGroup → VolumeGroup
reversed [] = []
reversed (m ∷ group) = reversed group ++ (m ∷ [])

abbrev pub no_catalog : StorageErrorDescriptor
no_catalog =
    failure "Storage: there aren't any physical volume corresponds to          specified path"
      catalog_not_found_error

-- `virtual_storage_[volume_group_id]`, which the source does not check.
abbrev group_at : Option VolumeGroup → Result (Expected VolumeGroup)
group_at none = fault out_of_bounds
group_at (some group) = ok (value (reversed group))

-- `getVolumeGroupRange`
unfoldable pub get_volume_group_range : Storage → List ℕ → Result (Expected VolumeGroup)
get_volume_group_range s key =
    let max_subkey_length = Index.find_max_sub_key key s.virtual_storage_index in
    let storage_key = take max_subkey_length key in
    let volume_group_id = Index.get group_bits storage_key s.virtual_storage_index in
    if not (is_exist_leaf group_bits volume_group_id)
    then ok (unexpected no_catalog)
    else group_at (get_elem? s.virtual_storage volume_group_id)

-- `catalog_key`
unfoldable pub catalog_key : Storage → List ℕ → List ℕ
catalog_key s key = drop (Index.find_max_sub_key key s.virtual_storage_index) key

module _ {S : Type 0} where
  -- The loops over the range: the first call that succeeds ends them.
  unfoldable pub first_success :
      (MountPoint → S → StorageErrorDescriptor × S) → VolumeGroup → S → StorageErrorDescriptor × S
  unfolding is_success
  first_success call [] w = (failure "" key_not_found, w)
  first_success call (m ∷ range) w =
      let (result, w') = call m w in
      let rest = first_success call range w' in if is_success result then (succeeded, w') else rest

  unfoldable pub first_value :
      {A : Type 0} → (MountPoint → S → Expected A × S) → VolumeGroup → S → Expected A × S
  first_value call [] w = (unexpected (failure "" key_not_found), w)
  first_value call (m ∷ range) w =
      let (result, w') = call m w in
      elim result [ value a ↦ (value a, w') | unexpected e ↦ first_value call range w' ]

  -- What an operation does with the range of its key.
  abbrev pub on_range :
      (MountPoint → S → StorageErrorDescriptor × S)
      → Result (Expected VolumeGroup)
      → Exec S StorageErrorDescriptor
  on_range call (ok (value range)) w = let done = first_success call range w in (ok done.0, done.1)
  on_range call (ok (unexpected e)) w = (ok e, w)
  on_range call (throw e) w = (throw e, w)
  on_range call (fault e) w = (fault e, w)

  abbrev pub on_range_value :
      {A : Type 0}
      → (MountPoint → S → Expected A × S)
      → Result (Expected VolumeGroup)
      → Exec S (Expected A)
  on_range_value call (ok (value range)) w =
      let done = first_value call range w in (ok done.0, done.1)
  on_range_value call (ok (unexpected e)) w = (ok (unexpected e), w)
  on_range_value call (throw e) w = (throw e, w)
  on_range_value call (fault e) w = (fault e, w)

module _ {S : Type 0} (calls : VolumeCalls S) (s : Storage) where
  -- `mount_catalog_ + catalog_key`
  abbrev pub adjusted_key : List ℕ → MountPoint → List ℕ
  adjusted_key key m = m.mount_catalog ++ catalog_key s key

  -- `Put`, `Get`, `HasKey`, `HasCatalog`, `Delete`, `SetExpiredDate` and `GetExpiredDate`
  unfoldable pub put : List ℕ → Option StorageValue → Exec S StorageErrorDescriptor
  put key v =
      on_range (λ m. calls.put m.pv_manager (adjusted_key key m) v) (get_volume_group_range s key)

  unfoldable pub get : List ℕ → Exec S (Expected StorageValue)
  get key =
      on_range_value (λ m. calls.get m.pv_manager (adjusted_key key m))
        (get_volume_group_range s key)

  unfoldable pub has_key : List ℕ → Exec S StorageErrorDescriptor
  has_key key =
      on_range (λ m. calls.has_key m.pv_manager (adjusted_key key m)) (get_volume_group_range s key)

  unfoldable pub has_catalog : List ℕ → Exec S StorageErrorDescriptor
  has_catalog key =
      on_range (λ m. calls.has_catalog m.pv_manager (adjusted_key key m))
        (get_volume_group_range s key)

  unfoldable pub delete : List ℕ → Exec S StorageErrorDescriptor
  delete key =
      on_range (λ m. calls.delete m.pv_manager (adjusted_key key m)) (get_volume_group_range s key)

  unfoldable pub set_expired_date : List ℕ → ℕ → Exec S StorageErrorDescriptor
  set_expired_date key expired =
      on_range (λ m. calls.set_expired_date m.pv_manager (adjusted_key key m) expired)
        (get_volume_group_range s key)

  unfoldable pub get_expired_date : List ℕ → Exec S (Expected ℕ)
  get_expired_date key =
      on_range_value (λ m. calls.get_expired_date m.pv_manager (adjusted_key key m))
        (get_volume_group_range s key)

-- The insertion at the place that `std::lower_bound` finds in a group that is sorted: before the
-- first mount point whose priority is not less.
unfoldable pub insert_mount : MountPoint → VolumeGroup → VolumeGroup
insert_mount m [] = m ∷ []
insert_mount m (n ∷ group) =
    let rest = n ∷ insert_mount m group in if ltb n.priority m.priority then rest else m ∷ n ∷ group

abbrev with_group : Option VolumeGroup → ℕ → MountPoint → Exec Storage StorageErrorDescriptor
with_group none id m s = (fault out_of_bounds, s)
with_group (some group) id m s =
    (ok succeeded, record s { virtual_storage = set s.virtual_storage id (insert_mount m group) })

-- `addNewMountPoint`
unfoldable pub add_new_mount_point : MountPoint → List ℕ → Exec Storage StorageErrorDescriptor
add_new_mount_point m storage_mount_catalog s =
    let volume_group_id = Index.get group_bits storage_mount_catalog s.virtual_storage_index in
    if not (is_exist_leaf group_bits volume_group_id)
    then (
      ok succeeded,
      record {
        virtual_storage = s.virtual_storage ++ ((m ∷ []) ∷ []);
        virtual_storage_index =
            (Index.insert group_bits storage_mount_catalog
              (length s.virtual_storage % 2 ^ group_bits) s.virtual_storage_index).0;
      },
    )
    else if ltb (length s.virtual_storage) volume_group_id
    then (ok (failure "Index is diversed with storage" unknown_error), s)
    else with_group (get_elem? s.virtual_storage volume_group_id) volume_group_id m s

-- `Mount`, with what `PVManagerFactory::Create` returns, which is the number of a volume. The
-- state is that of the storage and of the volumes.
unfoldable pub mount :
    {S : Type 0}
    → VolumeCalls S
    → Expected ℕ
    → List ℕ
    → List ℕ
    → Exec (Storage × S) StorageErrorDescriptor
unfolding is_success
mount calls (unexpected e) storage_catalog pv_catalog (s, w) = (ok e, (s, w))
mount calls (value pv) storage_catalog pv_catalog (s, w) =
    let (found, w') = calls.has_catalog pv pv_catalog w in
    let m : MountPoint = record {
      pv_manager = pv;
      mount_catalog = pv_catalog;
      priority = calls.priority pv w';
    } in
    let (result, s') = add_new_mount_point m storage_catalog s in
    if not (is_success found)
    then (ok (failure "Specified PV doesn't have such catalog" catalog_not_found_error), (s, w'))
    else (result, (s', w'))
