-- ===== src/Reader.antt =====
-- include/storage/lib/physical_volume/PVDeviceDataReaderWriter.hpp: structures and chunked data
-- on a device. (The constructor's test that the device is open is the device's own.)
pub mod Stored
pub mod Prefix
pub mod Chunk
pub mod Sequels
use yet_another_storage.Prelude.{
  ℕ, zero, suc, ◌+◌, ◌*◌, ◌%◌, ◌^◌, min, Bool, true, false, not, ◌&&◌, List, ◌++◌, length, take,
  ltb, if◌then◌else◌,
}
use yet_another_storage.Errors.{yas, corrupted_header_error}
use yet_another_storage.Exec.{Exec, pure, raise, crash, out_of_bounds, out_of_fuel, ◌>>=◌, ◌>>◌}
use yet_another_storage.Device.{Device}
use yet_another_storage.Bytes.Packed.{Packed, sizeof, load_from_bytes, save_as_bytes}
use yet_another_storage.Layout.{ComplexTypeHeader, complex_type_header, data_offset}
use yet_another_storage.Layout.Types

-- `kMaximumTypeSize`
abbrev pub maximum_type_size : ℕ
maximum_type_size = 400 * 1024 * 1024

-- `checkComplexTypeHeader`
unfoldable pub check_complex_type_header :
    {S : Type 0} → ℕ → ComplexTypeHeader → Bool → Exec S (Unit {0})
check_complex_type_header cluster_size h is_first =
    if is_first && not (Types.has_state h.value_state Types.complex_begin)
    then raise (yas "Read complex type error: kComplexBegin type expected" corrupted_header_error)
    else if not is_first && not (Types.has_state h.value_state Types.complex_sequel)
    then raise (yas "Read complex type error: kComplexSequel type expected" corrupted_header_error)
    else if ltb cluster_size h.chunk_size
    then raise (
        yas "Read complex type error: chunk size is bigger than device cluster size"
          corrupted_header_error)
    else if ltb maximum_type_size h.overall_size
    then raise (
        yas "Read complex type error: chunk size is bigger than device cluster size"
          corrupted_header_error)
    else pure tt

-- The header that `WriteComplexType` makes of the one that it finds.
unfoldable pub written_header : ℕ → Bool → ℕ → ℕ → ComplexTypeHeader → ComplexTypeHeader
written_header pv_type is_first next_free_offset data_size h = record h {
  overall_size = data_size;
  value_type = pv_type;
  value_state = if is_first then Types.complex_begin else Types.complex_sequel;
  chunk_size = min h.chunk_size data_size;
  sequel_offset = next_free_offset;
}

module _ (d : Device) where
  -- `Read` of a structure
  unfoldable pub read_header : {H : Type 0} → Packed H → ℕ → Exec d.Dev H
  read_header P offset = do
    raw_bytes ← d.read offset (sizeof P.widths)
    pure (load_from_bytes P raw_bytes)

  -- `Write` of a structure
  unfoldable pub write_header : {H : Type 0} → Packed H → ℕ → H → Exec d.Dev (Unit {0})
  write_header P position h = do _ ← d.write position (save_as_bytes P h); pure tt

  -- `RawRead` and `RawWrite`
  unfoldable pub raw_read : ℕ → ℕ → Exec d.Dev (List ℕ)
  raw_read offset size = d.read offset size

  unfoldable pub raw_write : ℕ → List ℕ → Exec d.Dev ℕ
  raw_write offset bs = d.write offset bs

  module _ (cluster_size : ℕ) where
    -- Reads the data of one chunk behind its header. The buffer has `overall_size` bytes, of which
    -- `readed_size` are filled.
    unfoldable pub read_chunk : ℕ → ℕ → ℕ → ComplexTypeHeader → Exec d.Dev (List ℕ)
    read_chunk overall_size readed_size offset h =
        if ltb overall_size (readed_size + h.chunk_size)
        then crash out_of_bounds
        else d.read ((offset + data_offset) % 2 ^ 64) h.chunk_size

    -- The loop of `ReadComplexType` over the sequels.
    unfoldable pub read_sequels : ℕ → ℕ → ℕ → ComplexTypeHeader → List ℕ → Exec d.Dev (List ℕ)
    read_sequels zero overall_size readed_size h bs =
        if ltb readed_size overall_size then crash out_of_fuel else pure bs
    read_sequels (suc fuel) overall_size readed_size h bs =
        let rest : Exec d.Dev (List ℕ) = (do
          h' ← read_header complex_type_header h.sequel_offset
          check_complex_type_header cluster_size h' false
          chunk ← read_chunk overall_size readed_size h.sequel_offset h'
          read_sequels fuel overall_size (readed_size + h'.chunk_size) h' (bs ++ chunk)) in
        if ltb readed_size overall_size then rest else pure bs

    -- `ReadComplexType`. A sequel without data makes no progress, so the loop may not end; with
    -- data in each the fuel is as much as there are bytes.
    unfoldable pub read_complex_type : ℕ → Exec d.Dev (List ℕ)
    read_complex_type offset = do
      h ← read_header complex_type_header offset
      check_complex_type_header cluster_size h true
      chunk ← read_chunk h.overall_size 0 offset h
      read_sequels h.overall_size h.overall_size h.chunk_size h chunk

  -- `WriteComplexType`: the number of bytes that the chunk at the offset takes.
  unfoldable pub write_complex_type : ℕ → ℕ → Bool → ℕ → List ℕ → Exec d.Dev ℕ
  write_complex_type offset pv_type is_first next_free_offset bs = do
    h ← read_header complex_type_header offset
    let data_size = length bs
    let written = min h.chunk_size data_size
    write_header complex_type_header offset
        (written_header pv_type is_first next_free_offset data_size h)
    _ ← d.write ((offset + data_offset) % 2 ^ 64) (take written bs)
    pure written
