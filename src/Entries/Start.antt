-- ===== src/Entries/Start.antt =====
-- `SaveStartEntries` and `LoadStartEntries` in PVEntriesManager.hpp: the header and the freelists at
-- the start of the volume.
pub mod Reload
use yet_another_storage.Prelude.{ℕ, Bool, not, ◌==◌, if◌then◌else◌}
use yet_another_storage.Utils.Version.{version_gt}
use yet_another_storage.Errors.{yas, invalid_pv_signature_error}
use yet_another_storage.Exec.{Exec, pure, raise, gets, modify, ◌>>=◌, ◌>>◌, and_then}
use yet_another_storage.Device.{Device}
use yet_another_storage.Allocator.{DoubleOps}
use yet_another_storage.Reader.{read_header, write_header}
use yet_another_storage.Freelist.{is_exist_offset, bin_count, set_bins, get_bins}
use yet_another_storage.Layout.{
  PvHeader, pv_header, default_signature, FreelistHeader, freelist_header,
}
use yet_another_storage.Entries.{Manager, Chance, on_device}
use yet_another_storage.Entries.Allocate.{State}

-- `sizeof(PVHeader)`, and with the freelists behind it.
abbrev pub pv_header_size : ℕ
pv_header_size = 36

abbrev pub start_size : ℕ
start_size = 124

module _ (d : Device) (f : DoubleOps) (c : Chance) where
  -- The header that `SaveStartEntries` writes.
  abbrev pub start_header : ℕ → State d f c → PvHeader
  start_header index_offset m = record {
    signature = default_signature;
    version = m.version;
    pv_size = m.allocator.device_end;
    cluster_size = m.cluster_size;
    priority = m.priority;
    inverted_index_offset = index_offset;
    freelist_bins_count = bin_count;
  }

  -- `SaveStartEntries`
  unfoldable pub save_start_entries : ℕ → Exec (State d f c) (Unit {0})
  save_start_entries index_offset = do
    header ← gets (start_header index_offset)
    on_device (write_header d pv_header 0 header)
    bins ← gets (λ m. get_bins m.bins)
    on_device (write_header d freelist_header pv_header_size (record { free_bins = bins }))
    modify (λ m. record m { allocator = record m.allocator { device_end = start_size } })

  -- `LoadStartEntries`
  unfoldable pub load_start_entries : Exec (State d f c) ℕ
  load_start_entries = do
    header ← on_device (read_header d pv_header 0)
    version ← gets (λ m. m.version)
    if not (header.signature == default_signature)
        then raise (yas "PV header parsing: corrupted signature" invalid_pv_signature_error)
        else if version_gt header.version version
        then raise (yas "PV header parsing: unsupported version" invalid_pv_signature_error)
        else if not (is_exist_offset header.inverted_index_offset)
        then raise
            (yas "PV header parsing: invalid inverted index offset" invalid_pv_signature_error)
        else (do
          freelist ← on_device (read_header d freelist_header pv_header_size)
          modify (λ m. record m {
            bins = set_bins freelist.free_bins;
            cluster_size = header.cluster_size;
            priority = header.priority;
            allocator = record m.allocator { device_end = header.pv_size };
          })
          pure header.inverted_index_offset)
