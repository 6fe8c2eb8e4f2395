-- ===== src/Volume/Lifecycle.antt =====
-- `Load`, `Create` and `close` of PVManager.hpp. The constructor of the device and its `Exists` are
-- the device's own: `Load` takes the device that was opened, if it is open, and `Create` whether it exists.
-- (The index is null only in a volume whose `Load` or `Create` threw, and `close` does nothing then.)
use Prim.Native.String.{String}
use yet_another_storage.Prelude.{ℕ, Bool, Option, none, some, List, if◌then◌else◌}
use yet_another_storage.Errors.{yas, std_exception, device_general_error}
use yet_another_storage.Exec.{Exec, Result, ok, throw, fault, pure, gets, modify, ◌>>=◌, ◌>>◌}
use yet_another_storage.Utils.Version.{Version}
use yet_another_storage.Index.{new_index}
use yet_another_storage.Index.Saved.{serialize, deserialize}
use yet_another_storage.Index.Serialization.{LeafSerialization}
use yet_another_storage.Freelist.{is_exist_offset, non_exist_offset, new_bins, default_cluster_size}
use yet_another_storage.Device.{Device}
use yet_another_storage.Allocator.{DoubleOps, new_allocator}
use yet_another_storage.Entries.{Chance}
use yet_another_storage.Entries.Types.{StorageValue, simple, string, blob}
use yet_another_storage.Entries.Allocate.{State}
use yet_another_storage.Entries.Operations.{create_new_entry_value, get_entry_content, delete_entry}
use yet_another_storage.Entries.Start.{save_start_entries, load_start_entries}
use yet_another_storage.Volume.{Volume, on_entries, offset_bits}

-- What is not initialised when a volume is opened, and the text of `std::bad_variant_access`.
pub record Uninitialised : Type 0 where
  pub device_end : ℕ
  pub leaf : ℕ → LeafSerialization
  pub bad_variant_access : String

module _ (d : Device) (f : DoubleOps) (c : Chance) (u : Uninitialised) where
  -- The constructor of `PVEntriesManager`, on an open device.
  unfoldable pub new_entries : Version → ℕ → ℕ → d.Dev → State d f c
  new_entries version priority cluster_size device = record {
    device = device;
    reader_cluster_size = cluster_size;
    bins = new_bins;
    allocator = new_allocator f u.device_end cluster_size;
    version = version;
    cluster_size = cluster_size;
    priority = priority;
  }

  abbrev pub not_open : {A : Type 0} → Result A
  not_open =
      throw
        (yas "Device worker error: the device hasn't been opened correctly" device_general_error)

  -- The two reads of `Load`: the offset of the index, and what is there.
  unfoldable pub load_content : Exec (State d f c) (ℕ × StorageValue)
  load_content = do
    offset ← load_start_entries d f c
    content ← get_entry_content d f c offset
    pure (offset, content)

  -- `Load` behind the reads: `std::get` of the bytes, and the index that they hold.
  unfoldable pub load_index :
      Version → Result (ℕ × StorageValue) × State d f c → Result (Volume d.Dev f.Double)
  load_index version (ok (offset, blob bytes), entries) = elim (deserialize u.leaf bytes version) [
    | ok index ↦
        ok (record { index = index; index_offset = offset; entries = entries; version = version })
    | throw e ↦ throw e
    | fault e ↦ fault e
  ]
  load_index version (ok (offset, string bs), entries) = throw (std_exception u.bad_variant_access)
  load_index version (ok (offset, simple t bits), entries) =
      throw (std_exception u.bad_variant_access)
  load_index version (throw e, entries) = throw e
  load_index version (fault e, entries) = fault e

  -- `Load`
  unfoldable pub load : Version → Option d.Dev → Result (Volume d.Dev f.Double)
  load version none = not_open
  load version (some device) =
      load_index version (load_content (new_entries version 0 default_cluster_size device))

  -- `Create` behind the write of the start.
  abbrev pub created : Version → Result (Unit {0}) × State d f c → Result (Volume d.Dev f.Double)
  created version (ok _, entries) = ok (record {
    index = new_index offset_bits;
    index_offset = non_exist_offset;
    entries = entries;
    version = version;
  })
  created version (throw e, entries) = throw e
  created version (fault e, entries) = fault e

  -- `Create` where the device does not exist yet.
  unfoldable pub create_empty : Version → ℕ → ℕ → Option d.Dev → Result (Volume d.Dev f.Double)
  create_empty version priority cluster_size none = not_open
  create_empty version priority cluster_size (some device) =
      created version (
        save_start_entries d f c non_exist_offset
          (new_entries version priority cluster_size device))

  -- `Create`
  unfoldable pub create : Version → ℕ → ℕ → Bool → Option d.Dev → Result (Volume d.Dev f.Double)
  create version priority cluster_size exists device =
      if exists then load version device else create_empty version priority cluster_size device

module _ (d : Device) (f : DoubleOps) (c : Chance) where
  -- `Serialize` of the volume's index.
  unfoldable pub serialized_index : Exec (Volume d.Dev f.Double) (List ℕ)
  serialized_index v = (serialize v.version v.index, v)

  -- What `close` does with the index that was saved before.
  unfoldable pub delete_saved_index : Exec (Volume d.Dev f.Double) (Unit {0})
  delete_saved_index = do
    offset ← gets (λ v. v.index_offset)
    if is_exist_offset offset then on_entries (delete_entry d f c offset) else pure tt

  -- `close` of a changed index
  unfoldable pub save_index : Exec (Volume d.Dev f.Double) (Unit {0})
  save_index = do
    bytes ← serialized_index
    delete_saved_index
    offset ← on_entries (create_new_entry_value d f c (blob bytes))
    modify (λ v. record v { index_offset = offset })

  unfoldable pub save_if_changed : Exec (Volume d.Dev f.Double) (Unit {0})
  save_if_changed = do
    is_changed ← gets (λ v. v.index.is_changed)
    if is_changed then save_index else pure tt

  unfoldable pub close_body : Exec (Volume d.Dev f.Double) (Unit {0})
  close_body = do
    save_if_changed
    offset ← gets (λ v. v.index_offset)
    on_entries (save_start_entries d f c offset)

  -- The `catch (...)` of `close`
  abbrev pub swallowed :
      Result (Unit {0}) × Volume d.Dev f.Double → Result (Unit {0}) × Volume d.Dev f.Double
  swallowed (ok _, v) = (ok tt, v)
  swallowed (throw e, v) = (ok tt, v)
  swallowed (fault e, v) = (fault e, v)

  -- `close`
  unfoldable pub close : Exec (Volume d.Dev f.Double) (Unit {0})
  close v = swallowed (close_body v)
