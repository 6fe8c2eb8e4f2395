-- ===== src/Tests/Volumes.antt =====
-- Entries of a concrete volume on a device over a vector.
use yet_another_storage.Prelude.{
  ℕ, ◌≡◌, refl, true, none, some, List, [], ◌∷◌, ◌++◌, replicate, arith, inl,
}
use yet_another_storage.Utils.Version.{Version}
use yet_another_storage.Utils.Time.{of_time_t}
use yet_another_storage.Errors.{yas, corrupted_header_error}
use yet_another_storage.Exec.{ok, throw}
use yet_another_storage.Freelist.{
  Bins, new_bins, push_free_entry, pop_free_entry_offset, get_free_entry,
}
use yet_another_storage.Bytes.Packed.{save_as_bytes, load_from_bytes}
use yet_another_storage.Device.TestDevice
use yet_another_storage.Device.{test_device, test_device-IsReliable}
use yet_another_storage.Layout.{
  next_free_entry_offset, CommonTypeHeader, common_type_header, ComplexTypeHeader,
  complex_type_header,
}
use yet_another_storage.Layout.Types
use yet_another_storage.Allocator.{DoubleOps, Allocator}
use yet_another_storage.Reader.{read_header, write_complex_type, read_complex_type}
use yet_another_storage.Reader.Chunk.{read_complex_type-write_complex_type}
use yet_another_storage.Entries.{Chance}
use yet_another_storage.Entries.Types.{int32, simple}
use yet_another_storage.Entries.Allocate
use yet_another_storage.Entries.Allocate.{State, get_free_entry_offset}
use yet_another_storage.Entries.Operations
use yet_another_storage.Entries.Standing.{SimpleAt, set_entry_expired_date_lem}
use yet_another_storage.Entries.Create.{ChanceInRange, create_new_entry_value_lem}
use yet_another_storage.Entries.Delete.{delete_entry-reuse}
use yet_another_storage.Entries.Expiry.{ComplexAt, set_entry_expired_date-corrupts}

abbrev pub doubles : DoubleOps
doubles = record { Double = ℕ; of_int = λ n. n; times_extend_factor = λ n. n; to_int = λ n. n }

abbrev free_header : CommonTypeHeader
free_header = record {
  value_type = Types.empty4_simple;
  value_state = 0;
  expired_time_high = 0;
  expired_time_low = 0;
  value = 0;
}

abbrev pub chance : Chance
chance = record { header = free_header; beyond = 0 }

abbrev pub chance_in_range : ChanceInRange chance
chance_in_range = record { high = omega arith; low = omega arith }

abbrev pub version_1_0 : Version
version_1_0 = record { major = 1; minor = 0 }

abbrev pub ManagerState : Type 0
ManagerState = State test_device doubles chance

abbrev allocator : Allocator ℕ
allocator = record {
  device_end = 1000;
  cluster_size = 3840;
  simultaneously_allocated_clusters = 5;
  last_allocated_clusters_count = 5;
}

abbrev pub manager_on : List ℕ → Bins → ManagerState
manager_on bytes bins = record {
  device = bytes;
  reader_cluster_size = 3840;
  bins = bins;
  allocator = allocator;
  version = version_1_0;
  cluster_size = 3840;
  priority = 0;
}

-- A free entry of twelve bytes at the offset 16.
abbrev pub with_free : ManagerState
with_free =
    manager_on (replicate 16 0 ++ save_as_bytes (common_type_header 4) free_header)
      (push_free_entry 16 12 new_bins).1

pub with_free-finds :
    get_free_entry_offset test_device doubles chance 12 with_free
    ≡ (ok 16, record with_free { bins = new_bins })
unfolding get_free_entry_offset push_free_entry save_as_bytes new_bins Allocate.get_free_offset
    Allocate.pop_free pop_free_entry_offset Allocate.get_entry_type read_header TestDevice.read
    load_from_bytes Allocate.recover_and_push_simple next_free_entry_offset
with_free-finds = refl

create_new_entry_value_lem_example :
    (m' : ManagerState) × (Operations.create_new_entry_value test_device doubles chance
        (simple int32 42)
        with_free
      ≡ (ok 16, m'))
    × (Operations.get_entry_content test_device doubles chance 16 m' ≡ (ok (simple int32 42), m'))
    × (Operations.get_entry_expired_date test_device doubles chance 16 m' ≡ (ok none, m'))
unfolding save_as_bytes
create_new_entry_value_lem_example =
    create_new_entry_value_lem test_device doubles chance chance_in_range test_device-IsReliable
      with_free (record with_free { bins = new_bins }) 16 int32 42 with_free-finds (omega arith)
      (omega arith) (omega arith) (omega arith)

-- A stored number, 42, at the offset 16.
abbrev pub stored_header : CommonTypeHeader
stored_header = record free_header { value_type = Types.int32; value = 42 }

abbrev pub with_number : ManagerState
with_number =
    manager_on (replicate 16 0 ++ save_as_bytes (common_type_header 4) stored_header) new_bins

pub with_number-SimpleAt :
    SimpleAt test_device test_device-IsReliable doubles chance with_number 16 int32 stored_header
unfolding save_as_bytes
with_number-SimpleAt = record {
  typed = refl;
  in_range = omega arith;
  stands = (omega arith, refl);
  addressable = omega arith;
}

set_entry_expired_date_lem_example :
    (m' : ManagerState) × (Operations.set_entry_expired_date test_device doubles chance 16
        (of_time_t 1000)
        with_number
      ≡ (ok tt, m'))
    × (Operations.get_entry_expired_date test_device doubles chance 16 m'
        ≡ (ok (some (of_time_t 1000)), m'))
    × (Operations.get_entry_content test_device doubles chance 16 m' ≡ (ok (simple int32 42), m'))
unfolding of_time_t
set_entry_expired_date_lem_example =
    set_entry_expired_date_lem test_device test_device-IsReliable doubles chance with_number 16
      int32 stored_header (of_time_t 1000) with_number-SimpleAt (omega arith) (omega arith)

delete_entry-reuse_example :
    (m' : ManagerState) × (Operations.delete_entry test_device doubles chance 16 with_number
      ≡ (ok tt, m'))
    × (get_free_entry_offset test_device doubles chance 12 m'
        ≡ (ok 16, record m' { bins = new_bins }))
unfolding new_bins get_free_entry
delete_entry-reuse_example =
    delete_entry-reuse test_device test_device-IsReliable doubles chance with_number 16 int32
      stored_header with_number-SimpleAt (record { same = refl }) (omega arith) (omega arith)

-- A stored string of eight bytes at the offset 16.
abbrev pub string_header : ComplexTypeHeader
string_header = record {
  value_type = Types.string;
  value_state = Types.complex_begin;
  expired_time_high = 0;
  expired_time_low = 0;
  overall_size = 8;
  chunk_size = 8;
  sequel_offset = 0;
  next_free_entry_offset = 0;
}

abbrev pub with_string : ManagerState
with_string =
    manager_on (replicate 16 0 ++ save_as_bytes complex_type_header string_header) new_bins

pub with_string-ComplexAt :
    ComplexAt test_device test_device-IsReliable doubles chance with_string 16 string_header
unfolding save_as_bytes
with_string-ComplexAt = record {
  typed = inl refl;
  in_range = omega arith;
  stands = (omega arith, refl);
  addressable = omega arith;
}

set_entry_expired_date-corrupts_example :
    (m' : ManagerState) × (Operations.set_entry_expired_date test_device doubles chance 16
        (of_time_t 1000)
        with_string
      ≡ (ok tt, m'))
    × (Operations.get_entry_expired_date test_device doubles chance 16 m'
        ≡ (ok (some (of_time_t 1000)), m'))
    × (Operations.get_entry_content test_device doubles chance 16 m' ≡ (
      throw (yas "Read complex type error: kComplexBegin type expected" corrupted_header_error),
      m',
    ))
unfolding of_time_t
set_entry_expired_date-corrupts_example =
    set_entry_expired_date-corrupts test_device test_device-IsReliable doubles chance with_string 16
      string_header (of_time_t 1000) with_string-ComplexAt (omega arith) (omega arith)

abbrev room : List ℕ
room = replicate 16 0 ++ save_as_bytes complex_type_header string_header

read_complex_type-write_complex_type_example :
    (s' : List ℕ) × (write_complex_type test_device 16 Types.blob true 0 (1 ∷ 2 ∷ 3 ∷ []) room
      ≡ (ok 3, s'))
    × (read_complex_type test_device 3840 16 s' ≡ (ok (1 ∷ 2 ∷ 3 ∷ []), s'))
unfolding save_as_bytes
read_complex_type-write_complex_type_example =
    read_complex_type-write_complex_type test_device test_device-IsReliable 3840 Types.blob 0 16
      string_header (1 ∷ 2 ∷ 3 ∷ []) room (omega arith) (omega arith) (omega arith) (omega arith)
      (omega arith) (omega arith, refl) (omega arith) (omega arith) (omega arith)
