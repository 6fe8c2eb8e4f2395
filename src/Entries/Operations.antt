-- ===== src/Entries/Operations.antt =====
-- The operations of PVEntriesManager.hpp on entries: create, read, delete, and their expiry dates.
use yet_another_storage.Prelude.{
  ℕ, zero, suc, ◌+◌, ◌-◌, ◌*◌, ◌%◌, Bool, true, false, not, ◌&&◌, ltb, ◌==◌, if◌then◌else◌, List,
  length, drop, Option, none, some,
}
use yet_another_storage.Exec.{Exec, pure, crash, out_of_fuel, gets, ◌>>=◌, ◌>>◌}
use yet_another_storage.Utils.Time.{Time}
use yet_another_storage.Device.{Device}
use yet_another_storage.Allocator.{DoubleOps}
use yet_another_storage.Bytes.Packed.{byte_bound}
use yet_another_storage.Reader.{read_header, write_header, write_complex_type, read_complex_type}
use yet_another_storage.Freelist.{is_exist_offset, get_free_entry}
use yet_another_storage.Layout.{
  CommonTypeHeader, ComplexTypeHeader, common_type_header, complex_type_header,
  set_next_free_entry_offset, data_offset,
}
use yet_another_storage.Layout.Types
use yet_another_storage.Entries.{Chance, on_device}
use yet_another_storage.Entries.Types.{
  SimpleType, StorageValue, simple, string, blob, EntryKind, simple_kind, string_kind, blob_kind,
  simple_code, value_size, header_width, convert_to_entry_type, convert_value, convert_bytes,
}
use yet_another_storage.Entries.Allocate.{
  State, add_offset, push_free, get_entry_type, get_free_entry_offset,
}

-- The optional that `getEntryExpiredDate` makes of a header.
abbrev pub date_of : ℕ → ℕ → ℕ → Option Time
date_of value_state high low =
    if not (Types.has_state value_state Types.is_expired)
    then none
    else some (record { expired_time_high = high; expired_time_low = low })

module _ (d : Device) (f : DoubleOps) (c : Chance) where
  -- The loop of `writeComplexType`. Every round asks for the entry of the next chunk before it
  -- knows whether there is one.
  unfoldable pub write_chunks : ℕ → ℕ → Bool → ℕ → ℕ → List ℕ → Exec (State d f c) (Unit {0})
  write_chunks zero pv_type is_first free_offset overall_written bs =
      if ltb overall_written (length bs) then crash out_of_fuel else pure tt
  write_chunks (suc fuel) pv_type is_first free_offset overall_written bs =
      let rest : Exec (State d f c) (Unit {0}) = (do
        next_free_offset ← get_free_entry_offset d f c (length bs - overall_written + 40)
        written ← on_device (
            write_complex_type d free_offset pv_type is_first next_free_offset
              (drop overall_written bs))
        write_chunks fuel pv_type false next_free_offset (overall_written + written) bs) in
      if ltb overall_written (length bs) then rest else pure tt

  -- `writeComplexType`
  unfoldable pub write_complex : ℕ → List ℕ → Exec (State d f c) ℕ
  write_complex pv_type bs = do
    first_free_offset ← get_free_entry_offset d f c (length bs + 40)
    write_chunks (length bs) pv_type true first_free_offset 0 bs
    pure first_free_offset

  -- The header of a new simple entry: the time is not set, and the value takes the bytes of its
  -- header, also those that lie behind a shorter value.
  unfoldable pub simple_header : SimpleType → ℕ → CommonTypeHeader
  simple_header t bits = record c.header {
    value_type = simple_code t;
    value_state = Types.empty;
    value =
        bits + byte_bound (value_size t) * (c.beyond % byte_bound (header_width t - value_size t));
  }

  -- `CreateNewEntryValue`
  unfoldable pub create_new_entry_value : StorageValue → Exec (State d f c) ℕ
  create_new_entry_value (simple t bits) = do
    new_entry_offset ← get_free_entry_offset d f c (8 + header_width t)
    on_device (
        write_header d (common_type_header (header_width t)) new_entry_offset
          (simple_header t bits))
    pure new_entry_offset
  create_new_entry_value (string bs) = write_complex Types.string bs
  create_new_entry_value (blob bs) = write_complex Types.blob bs

  -- `getEntryContent`, for a simple header
  unfoldable pub get_simple_content : ℕ → ℕ → Exec (State d f c) StorageValue
  get_simple_content width offset = do
    header ← on_device (read_header d (common_type_header width) offset)
    convert_value header.value_type header.value

  -- `getEntryContent<ComplexTypeHeader>`
  unfoldable pub get_complex_content : ℕ → Exec (State d f c) StorageValue
  get_complex_content offset = do
    header ← on_device (read_header d complex_type_header offset)
    cluster_size ← gets (λ m. m.reader_cluster_size)
    bs ← on_device (read_complex_type d cluster_size offset)
    convert_bytes header.value_type bs

  -- `GetEntryContent`
  unfoldable pub content_of_kind : EntryKind → ℕ → Exec (State d f c) StorageValue
  content_of_kind (simple_kind t) = get_simple_content (header_width t)
  content_of_kind string_kind = get_complex_content
  content_of_kind blob_kind = get_complex_content

  unfoldable pub get_entry_content : ℕ → Exec (State d f c) StorageValue
  unfolding content_of_kind
  get_entry_content offset = do
    pv_type ← get_entry_type d f c offset
    kind ← convert_to_entry_type pv_type
    content_of_kind kind offset

  -- `deleteEntry`, for a simple header
  unfoldable pub delete_simple : ℕ → ℕ → Exec (State d f c) (Unit {0})
  delete_simple width offset = do
    header ← on_device (read_header d (common_type_header width) offset)
    next ← gets (λ m. get_free_entry (8 + width) m.bins)
    on_device (
        write_header d (common_type_header width) offset (
          set_next_free_entry_offset next (record header {
            value_type = if width == 4 then Types.empty4_simple else Types.empty8_simple;
            value_state = Types.empty;
          })))
    push_free offset (8 + width)

  -- One chunk of `deleteEntry<ComplexTypeHeader>`.
  unfoldable pub free_chunk : ℕ → ComplexTypeHeader → Exec (State d f c) (Unit {0})
  free_chunk offset header = do
    next ← gets (λ m. get_free_entry header.chunk_size m.bins)
    on_device (
        write_header d complex_type_header offset (record header {
          value_type = Types.empty_complex;
          value_state = Types.complex_begin;
          overall_size = header.chunk_size;
          next_free_entry_offset = next;
        }))
    push_free offset (add_offset header.chunk_size data_offset)

  -- `deleteEntry<ComplexTypeHeader>`. The body of its loop ends with a `return`, so it frees at
  -- most one sequel.
  unfoldable pub delete_complex : ℕ → Exec (State d f c) (Unit {0})
  unfolding free_chunk
  delete_complex offset = do
    header ← on_device (read_header d complex_type_header offset)
    free_chunk offset header
    if ltb header.chunk_size header.overall_size && is_exist_offset header.sequel_offset
        then (do
          sequel ← on_device (read_header d complex_type_header header.sequel_offset)
          free_chunk header.sequel_offset sequel)
        else pure tt

  -- `DeleteEntry`
  unfoldable pub delete_of_kind : EntryKind → ℕ → Exec (State d f c) (Unit {0})
  delete_of_kind (simple_kind t) = delete_simple (header_width t)
  delete_of_kind string_kind = delete_complex
  delete_of_kind blob_kind = delete_complex

  unfoldable pub delete_entry : ℕ → Exec (State d f c) (Unit {0})
  unfolding delete_of_kind
  delete_entry offset = do
    pv_type ← get_entry_type d f c offset
    kind ← convert_to_entry_type pv_type
    delete_of_kind kind offset

  -- `getEntryExpiredDate`
  unfoldable pub get_simple_date : ℕ → ℕ → Exec (State d f c) (Option Time)
  get_simple_date width offset = do
    header ← on_device (read_header d (common_type_header width) offset)
    pure (date_of header.value_state header.expired_time_high header.expired_time_low)

  unfoldable pub get_complex_date : ℕ → Exec (State d f c) (Option Time)
  get_complex_date offset = do
    header ← on_device (read_header d complex_type_header offset)
    pure (date_of header.value_state header.expired_time_high header.expired_time_low)

  -- `GetEntryExpiredDate`
  unfoldable pub date_of_kind : EntryKind → ℕ → Exec (State d f c) (Option Time)
  date_of_kind (simple_kind t) = get_simple_date (header_width t)
  date_of_kind string_kind = get_complex_date
  date_of_kind blob_kind = get_complex_date

  unfoldable pub get_entry_expired_date : ℕ → Exec (State d f c) (Option Time)
  unfolding date_of_kind
  get_entry_expired_date offset = do
    pv_type ← get_entry_type d f c offset
    kind ← convert_to_entry_type pv_type
    date_of_kind kind offset

  -- `setEntryExpiredDate`
  unfoldable pub set_simple_date : ℕ → ℕ → Time → Exec (State d f c) (Unit {0})
  set_simple_date width offset date = do
    header ← on_device (read_header d (common_type_header width) offset)
    on_device (
        write_header d (common_type_header width) offset (record header {
          value_state = Types.is_expired;
          expired_time_high = date.expired_time_high;
          expired_time_low = date.expired_time_low;
        }))

  unfoldable pub set_complex_date : ℕ → Time → Exec (State d f c) (Unit {0})
  set_complex_date offset date = do
    header ← on_device (read_header d complex_type_header offset)
    on_device (
        write_header d complex_type_header offset (record header {
          value_state = Types.is_expired;
          expired_time_high = date.expired_time_high;
          expired_time_low = date.expired_time_low;
        }))

  -- `SetEntryExpiredDate`
  unfoldable pub set_date_of_kind : EntryKind → ℕ → Time → Exec (State d f c) (Unit {0})
  set_date_of_kind (simple_kind t) = set_simple_date (header_width t)
  set_date_of_kind string_kind = set_complex_date
  set_date_of_kind blob_kind = set_complex_date

  unfoldable pub set_entry_expired_date : ℕ → Time → Exec (State d f c) (Unit {0})
  unfolding set_date_of_kind
  set_entry_expired_date offset date = do
    pv_type ← get_entry_type d f c offset
    kind ← convert_to_entry_type pv_type
    set_date_of_kind kind offset date
