-- ===== src/Tests/Starting.antt =====
-- A concrete volume that is saved and loaded.
use yet_another_storage.Prelude.{◌≡◌, refl, [], arith}
use yet_another_storage.Utils.Version.{version_gt}
use yet_another_storage.Exec.{ok}
use yet_another_storage.Freelist.{new_bins, get_bins}
use yet_another_storage.Bytes.Packed.{save_as_bytes}
use yet_another_storage.Layout.{default_signature}
use yet_another_storage.Device.{test_device, test_device-IsReliable}
use yet_another_storage.Entries.Start.{save_start_entries, load_start_entries}
use yet_another_storage.Entries.Start.Reload.{IsSavable, load-save_start_entries}
use yet_another_storage.Tests.Volumes.{doubles, chance, manager_on, ManagerState, with_number}

abbrev opening : ManagerState
opening = record (manager_on [] new_bins) {
  version = record { major = 1; minor = 2 };
  priority = 7;
}

with_number-IsSavable : IsSavable test_device test_device-IsReliable doubles chance 16 with_number
unfolding new_bins get_bins default_signature
with_number-IsSavable = record {
  header = omega arith;
  bins = omega arith;
  limits = record { same = refl };
  addressable = unfold save_as_bytes in omega arith;
}

load-save_start_entries_example :
    (m' : ManagerState) × (save_start_entries test_device doubles chance 16 with_number
      ≡ (ok tt, m'))
    × (load_start_entries test_device doubles chance (record opening { device = m'.device }) ≡ (
      ok 16,
      record opening {
        device = m'.device;
        bins = new_bins;
        cluster_size = 3840;
        priority = 0;
        allocator = record opening.allocator { device_end = 1000 };
      },
    ))
unfolding version_gt
load-save_start_entries_example =
    load-save_start_entries test_device test_device-IsReliable doubles chance 16 with_number opening
      with_number-IsSavable (omega arith)
