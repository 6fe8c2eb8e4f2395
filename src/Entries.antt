-- ===== src/Entries.antt =====
-- include/storage/lib/physical_volume/PVEntriesManager.hpp: entries on the device, their
-- allocation from the freelists, and the start of the volume.
pub mod Types
pub mod Allocate
pub mod Operations
pub mod Standing
pub mod Create
pub mod Complex
pub mod Expiry
pub mod Delete
pub mod Start
use yet_another_storage.Prelude.{ℕ}
use yet_another_storage.Exec.{Exec, Result, ok, throw, fault}
use yet_another_storage.Utils.Version.{Version}
use yet_another_storage.Device.{Device}
use yet_another_storage.Allocator.{DoubleOps, Allocator}
use yet_another_storage.Freelist.{Bins}
use yet_another_storage.Layout.{CommonTypeHeader}

-- The fields of `PVEntriesManager`, with the device behind `data_reader_writer_`. The reader keeps
-- the cluster size that it was made with, also when `LoadStartEntries` changes `cluster_size_`.
pub record Manager (Dev Double : Type 0) : Type 0 where
  pub device : Dev
  pub reader_cluster_size : ℕ
  pub bins : Bins
  pub allocator : Allocator Double
  pub version : Version
  pub cluster_size : ℕ
  pub priority : ℕ

-- What the code leaves to chance: the fields of a header on the stack that it does not set, and
-- the bytes that lie behind a value of less than four bytes.
pub record Chance : Type 0 where
  pub header : CommonTypeHeader
  pub beyond : ℕ

module _ {Dev Double : Type 0} where
  -- A call of the reader runs on the device.
  abbrev with_device :
      {A : Type 0} → Manager Dev Double → Result A × Dev → Result A × Manager Dev Double
  with_device m (ok a, s) = (ok a, record m { device = s })
  with_device m (throw e, s) = (throw e, record m { device = s })
  with_device m (fault e, s) = (fault e, record m { device = s })

  abbrev pub on_device : {A : Type 0} → Exec Dev A → Exec (Manager Dev Double) A
  on_device call m = with_device m (call m.device)
