-- ===== src/Volume.antt =====
-- include/storage/PVManager.hpp and IStorage.hpp: the key-value operations on one physical volume.
-- Every operation holds the volume's mutex, so it is one step on the volume's state, and it is
-- `noexcept`: an exception becomes the descriptor that it returns.
pub mod PutGet
pub mod PutText
pub mod Removal
pub mod Lifecycle
pub mod Room
pub mod Reopen
pub mod Unused
use Prim.Native.String.{String}
use yet_another_storage.Prelude.{
  ℕ, Bool, true, false, not, Option, none, some, List, ◌==◌, if◌then◌else◌,
}
use yet_another_storage.Errors.{
  StorageErrorDescriptor, StorageError, success, key_not_found, key_already_created,
  incorrect_storage_value, key_doesnt_expired, handle,
}
use yet_another_storage.Exec.{
  Exec, Result, ok, throw, fault, pure, gets, modify, ◌>>=◌, ◌>>◌, and_then,
}
use yet_another_storage.Utils.Version.{Version}
use yet_another_storage.Utils.Time.{Time, of_time_t, get_time, is_expired}
use yet_another_storage.Trie.{is_exist_leaf}
use yet_another_storage.Index
use yet_another_storage.Index.{InvertedIndex}
use yet_another_storage.Device.{Device}
use yet_another_storage.Allocator.{DoubleOps}
use yet_another_storage.Entries.{Manager, Chance}
use yet_another_storage.Entries.Types.{StorageValue}
use yet_another_storage.Entries.Operations

-- `nonstd::expected`
pub data Expected (A : Type 0) : Type 0 where
  value : A → Expected A
  unexpected : StorageErrorDescriptor → Expected A

abbrev pub failure : String → StorageError → StorageErrorDescriptor
failure m e = record { message = m; error_code = e }

abbrev pub succeeded : StorageErrorDescriptor
succeeded = failure "" success

-- The bits of an offset, which is the leaf type of the volume's index.
abbrev pub offset_bits : ℕ
offset_bits = 64

pub record Volume (Dev Double : Type 0) : Type 0 where
  pub index : InvertedIndex
  pub index_offset : ℕ
  pub entries : Manager Dev Double
  pub version : Version

module _ {Dev Double : Type 0} where
  abbrev with_entries :
      {A : Type 0}
      → Volume Dev Double
      → Result A × Manager Dev Double
      → Result A × Volume Dev Double
  with_entries v (ok a, m) = (ok a, record v { entries = m })
  with_entries v (throw e, m) = (throw e, record v { entries = m })
  with_entries v (fault e, m) = (fault e, record v { entries = m })

  -- A call of `entries_manager_`.
  abbrev pub on_entries : {A : Type 0} → Exec (Manager Dev Double) A → Exec (Volume Dev Double) A
  on_entries call v = with_entries v (call v.entries)

  -- The `catch (...)` of the operations that return a descriptor, and of those that return an
  -- `expected`; the flag is that of `ExceptionHandler::Handle`.
  abbrev caught :
      {A : Type 0}
      → (StorageErrorDescriptor → A)
      → Bool
      → Result A × Volume Dev Double
      → Result A × Volume Dev Double
  caught wrap copies (ok a, v) = (ok a, v)
  caught wrap copies (throw e, v) = (ok (wrap (handle copies e)), v)
  caught wrap copies (fault e, v) = (fault e, v)

  abbrev pub guarded :
      Bool
      → Exec (Volume Dev Double) StorageErrorDescriptor
      → Exec (Volume Dev Double) StorageErrorDescriptor
  guarded copies body v = caught (λ d. d) copies (body v)

  abbrev pub guarded_expected :
      {A : Type 0}
      → Bool
      → Exec (Volume Dev Double) (Expected A)
      → Exec (Volume Dev Double) (Expected A)
  guarded_expected copies body v = caught unexpected copies (body v)

  -- Calls of `inverted_index_`.
  unfoldable pub index_get : List ℕ → Exec (Volume Dev Double) ℕ
  index_get key v = (ok (Index.get offset_bits key v.index), v)

  unfoldable pub index_insert : List ℕ → ℕ → Exec (Volume Dev Double) (Unit {0})
  index_insert key offset v =
      (ok tt, record v { index = (Index.insert offset_bits key offset v.index).0 })

  unfoldable pub index_delete : List ℕ → Exec (Volume Dev Double) (Unit {0})
  index_delete key v = (ok tt, record v { index = (Index.delete offset_bits key v.index).0 })

module _ (d : Device) (f : DoubleOps) (c : Chance) (copies : Bool) where
  abbrev pub VolumeState : Type 0
  VolumeState = Volume d.Dev f.Double

  -- `isEntryExpired`, at the clock reading `now`
  unfoldable pub is_entry_expired : ℕ → ℕ → Exec VolumeState Bool
  is_entry_expired now offset = do
    date ← on_entries (Operations.get_entry_expired_date d f c offset)
    pure (elim date [ none ↦ false | some t ↦ is_expired t now ])

  -- What `Get` and `HasKey` do with an expired entry, and `Delete` with any.
  unfoldable pub remove_entry : List ℕ → ℕ → Exec VolumeState (Unit {0})
  remove_entry key offset = do on_entries (Operations.delete_entry d f c offset); index_delete key

  -- `Put`; a value may be without content.
  unfoldable pub put : List ℕ → Option StorageValue → Exec VolumeState StorageErrorDescriptor
  put key none =
      guarded copies (pure (failure "Put key: value is valueless" incorrect_storage_value))
  put key (some v) = guarded copies (do
    taken ← gets (λ s. Index.has_key offset_bits key s.index)
    if taken
        then pure (
            failure "Put key: the storage already has current key, please remove it first"
              key_already_created)
        else (do
          offset ← on_entries (Operations.create_new_entry_value d f c v)
          index_insert key offset
          pure succeeded))

  -- `Get`
  unfoldable pub get : ℕ → List ℕ → Exec VolumeState (Expected StorageValue)
  get now key = guarded_expected copies (do
    offset ← index_get key
    if not (is_exist_leaf offset_bits offset)
        then pure (unexpected (failure "Get key: key hasn't been found" key_not_found))
        else (do
          expired ← is_entry_expired now offset
          if expired
              then (do
                remove_entry key offset
                pure (unexpected (failure "Get key: key hasn't been found" key_not_found)))
              else (do
                content ← on_entries (Operations.get_entry_content d f c offset)
                pure (value content))))

  -- `HasKey`
  unfoldable pub has_key : ℕ → List ℕ → Exec VolumeState StorageErrorDescriptor
  has_key now key = guarded copies (do
    offset ← index_get key
    if not (is_exist_leaf offset_bits offset) then pure (failure "" key_not_found) else (do
      expired ← is_entry_expired now offset
      if expired
          then (do remove_entry key offset; pure (failure "" key_not_found))
          else pure succeeded))

  -- `HasCatalog`
  unfoldable pub has_catalog : List ℕ → Exec VolumeState StorageErrorDescriptor
  has_catalog key = guarded copies (do
    length ← gets (λ s. Index.find_max_sub_key key s.index)
    pure (if length == 0 then failure "" key_not_found else succeeded))

  -- `Delete`
  unfoldable pub delete : List ℕ → Exec VolumeState StorageErrorDescriptor
  delete key = guarded copies (do
    offset ← index_get key
    if not (is_exist_leaf offset_bits offset)
        then pure (failure "Delete key: the key hasn't been found" key_not_found)
        else (do remove_entry key offset; pure succeeded))

  -- `SetExpiredDate`, with the value of the `time_t` as it is cast to 64 bits
  unfoldable pub set_expired_date : List ℕ → ℕ → Exec VolumeState StorageErrorDescriptor
  set_expired_date key expired = guarded copies (do
    offset ← index_get key
    if not (is_exist_leaf offset_bits offset)
        then pure (failure "SetExpiredDate key: key hasn't been found" key_not_found)
        else (do
          on_entries (Operations.set_entry_expired_date d f c offset (of_time_t expired))
          pure succeeded))

  -- `GetExpiredDate`
  unfoldable pub get_expired_date : List ℕ → Exec VolumeState (Expected ℕ)
  get_expired_date key = guarded_expected copies (do
    offset ← index_get key
    if not (is_exist_leaf offset_bits offset)
        then pure (unexpected (failure "GetExpiredDate key: key hasn't been found" key_not_found))
        else (do
          date ← on_entries (Operations.get_entry_expired_date d f c offset)
          pure (elim date [
            | some t ↦ value (get_time t)
            | none ↦
                unexpected (
                  failure "GetExpiredDate key: the key doesn't has expired date" key_doesnt_expired)
          ])))
