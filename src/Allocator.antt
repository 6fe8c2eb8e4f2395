-- ===== src/Allocator.antt =====
-- include/storage/lib/physical_volume/PVEntriesAllocator.hpp: how the volume is made longer by
-- clusters that are linked into a list of free entries.
pub mod Chain
pub mod Links
pub mod Rounds
pub mod Expand
use yet_another_storage.Prelude.{
  ℕ, zero, suc, ◌+◌, ◌-◌, ◌*◌, ◌/◌, ◌%◌, ◌^◌, max, List, length, replicate, ltb, if◌then◌else◌,
}
use yet_another_storage.Exec.{Exec, pure, crash, out_of_fuel, ◌>>=◌}
use yet_another_storage.Bytes.Cursor.{save_at}
use yet_another_storage.Device.{Device}
use yet_another_storage.Reader.{raw_write}
use yet_another_storage.Layout.{ComplexTypeHeader, complex_type_header, data_offset}
use yet_another_storage.Layout.Types
use yet_another_storage.Freelist.{is_exist_offset, non_exist_offset}

-- The arithmetic of `double` that the allocator uses: the conversion from an integer, the product
-- with `extend_factor_`, and the conversion to `int64_t`.
pub record DoubleOps : Type 1 where
  pub Double : Type 0
  pub of_int : ℕ → Double
  pub times_extend_factor : Double → Double
  pub to_int : Double → ℕ

abbrev pub maximum_simultaneously_extend_pv_size : ℕ
maximum_simultaneously_extend_pv_size = 5 * 0x1000

abbrev pub debug_filler : ℕ
debug_filler = 0xAA

pub record Allocator (Double : Type 0) : Type 0 where
  pub device_end : ℕ
  pub cluster_size : ℕ
  pub simultaneously_allocated_clusters : ℕ
  pub last_allocated_clusters_count : Double

-- The constructor; `device_end_` is not initialised by it. For a cluster size of zero, where the
-- source divides by zero, the quotient is zero here.
unfoldable pub new_allocator : (f : DoubleOps) → ℕ → ℕ → Allocator f.Double
new_allocator f uninitialised cluster_size =
    let clusters = max (maximum_simultaneously_extend_pv_size / cluster_size) 1 in
    record {
      device_end = uninitialised;
      cluster_size = cluster_size;
      simultaneously_allocated_clusters = clusters;
      last_allocated_clusters_count = f.of_int clusters;
    }

-- `cluster_size_` less the offset of the data, as an unsigned 64-bit number: it wraps where the
-- cluster is smaller than the header.
abbrev pub cluster_room : ℕ → ℕ
cluster_room cluster_size = (cluster_size + 2 ^ 64 - data_offset) % 2 ^ 64

-- The header of a new cluster; its state is not initialised.
unfoldable pub cluster_header : ℕ → ℕ → ℕ → ComplexTypeHeader
cluster_header uninitialised cluster_size next = record {
  value_type = Types.empty_complex;
  value_state = uninitialised;
  expired_time_high = 0;
  expired_time_low = 0;
  overall_size = cluster_room cluster_size;
  chunk_size = cluster_room cluster_size;
  sequel_offset = non_exist_offset;
  next_free_entry_offset = next;
}

-- The inner loop of `ExpandPV`, from the cluster `id` on with `n` clusters left: the buffer, and
-- `free_entry_offset` behind it. A header is saved only where it fits in the buffer.
unfoldable pub link_clusters : ℕ → ℕ → ℕ → ℕ → ℕ → ℕ → List ℕ → List ℕ × ℕ
unfolding cluster_header save_at
link_clusters uninitialised cluster_size device_end zero id free buffer = (buffer, free)
link_clusters uninitialised cluster_size device_end (suc n) id free buffer =
    let header = cluster_header uninitialised cluster_size free in
    link_clusters uninitialised cluster_size device_end n (suc id)
      (if is_exist_offset free then (free + cluster_size) % 2 ^ 64 else device_end)
      (save_at complex_type_header (id * cluster_size) header buffer).0

module _ (d : Device) (f : DoubleOps) (uninitialised : ℕ) where
  -- The outer loop of `ExpandPV`.
  unfoldable pub write_clusters :
      ℕ → ℕ → ℕ → ℕ → List ℕ → Allocator f.Double → Exec d.Dev (ℕ × Allocator f.Double)
  unfolding link_clusters
  write_clusters zero allocate written free buffer a =
      if ltb written allocate then crash out_of_fuel else pure (free, a)
  write_clusters (suc fuel) allocate written free buffer a =
      let linked =
        link_clusters uninitialised a.cluster_size a.device_end a.simultaneously_allocated_clusters
          0 free buffer in
      let rest : Exec d.Dev (ℕ × Allocator f.Double) = (do
        n ← raw_write d a.device_end linked.0
        write_clusters fuel allocate (written + a.simultaneously_allocated_clusters) linked.1
            linked.0 (record a { device_end = (a.device_end + n) % 2 ^ 64 })) in
      if ltb written allocate then rest else pure (free, a)

  -- `ExpandPV`. Every round writes at least one cluster, so the fuel is the number of clusters.
  unfoldable pub expand_pv : ℕ → Allocator f.Double → Exec d.Dev (ℕ × Allocator f.Double)
  unfolding write_clusters
  expand_pv free_entry_offset a =
      let last = f.times_extend_factor a.last_allocated_clusters_count in
      let allocate = f.to_int last in
      let buffer = replicate (a.simultaneously_allocated_clusters * a.cluster_size) debug_filler in
      write_clusters allocate allocate 0 free_entry_offset buffer
        (record a { last_allocated_clusters_count = last })
