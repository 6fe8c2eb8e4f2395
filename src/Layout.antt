-- ===== src/Layout.antt =====
-- include/storage/lib/physical_volume/pv_layout_headers.h: the structures on the device, for
-- offsets of 64 bits. A field holds the bit pattern of its value.
pub mod Types
pub mod Union
use yet_another_storage.Prelude.{ℕ, ◌+◌, ◌*◌, ◌/◌, ◌%◌, ◌^◌, ◌≡◌, refl, List, [], ◌∷◌, get_or}
use yet_another_storage.Utils.Version.{Version}
use yet_another_storage.Bytes.Packed.{Packed, from_bytes}

pub record PvHeader : Type 0 where
  pub signature : ℕ
  pub version : Version
  pub pv_size : ℕ
  pub cluster_size : ℕ
  pub priority : ℕ
  pub inverted_index_offset : ℕ
  pub freelist_bins_count : ℕ

-- The six bytes `YAS_PV`.
unfoldable pub default_signature : ℕ
unfolding from_bytes
default_signature = from_bytes (b'Y' ∷ b'A' ∷ b'S' ∷ b'_' ∷ b'P' ∷ b'V' ∷ [])

abbrev pub pv_header : Packed PvHeader
pv_header = record {
  widths = 6 ∷ 1 ∷ 1 ∷ 8 ∷ 4 ∷ 4 ∷ 8 ∷ 4 ∷ [];
  fields = λ h.
      h.signature ∷ h.version.major ∷ h.version.minor ∷ h.pv_size ∷ h.cluster_size ∷ h.priority
      ∷ h.inverted_index_offset ∷ h.freelist_bins_count ∷ [];
  make = λ vs. record {
    signature = get_or vs 0 0;
    version = record { major = get_or vs 1 0; minor = get_or vs 2 0 };
    pv_size = get_or vs 3 0;
    cluster_size = get_or vs 4 0;
    priority = get_or vs 5 0;
    inverted_index_offset = get_or vs 6 0;
    freelist_bins_count = get_or vs 7 0;
  };
  make-fields = λ h. refl;
}

-- `FreelistHeader`: the offsets of the eleven bins.
pub record FreelistHeader : Type 0 where
  pub free_bins : List ℕ

abbrev pub freelist_header : Packed FreelistHeader
freelist_header = record {
  widths = 8 ∷ 8 ∷ 8 ∷ 8 ∷ 8 ∷ 8 ∷ 8 ∷ 8 ∷ 8 ∷ 8 ∷ 8 ∷ [];
  fields = λ h. h.free_bins;
  make = λ vs. record { free_bins = vs };
  make-fields = λ h. refl;
}

-- `CommonTypeHeader<T>` with `PVState`, for a value of `w` bytes: `Simple4TypeHeader` for four
-- and `Simple8TypeHeader` for eight.
pub record CommonTypeHeader : Type 0 where
  pub value_type : ℕ
  pub value_state : ℕ
  pub expired_time_high : ℕ
  pub expired_time_low : ℕ
  pub value : ℕ

abbrev pub common_type_header : ℕ → Packed CommonTypeHeader
common_type_header w = record {
  widths = 1 ∷ 1 ∷ 2 ∷ 4 ∷ w ∷ [];
  fields =
      λ h. h.value_type ∷ h.value_state ∷ h.expired_time_high ∷ h.expired_time_low ∷ h.value ∷ [];
  make = λ vs. record {
    value_type = get_or vs 0 0;
    value_state = get_or vs 1 0;
    expired_time_high = get_or vs 2 0;
    expired_time_low = get_or vs 3 0;
    value = get_or vs 4 0;
  };
  make-fields = λ h. refl;
}

abbrev pub simple4_type_header : Packed CommonTypeHeader
simple4_type_header = common_type_header 4

abbrev pub simple8_type_header : Packed CommonTypeHeader
simple8_type_header = common_type_header 8

-- `next_free_entry_offset_` lies over `expired_time_low_` and the low four bytes of `value_`.
unfoldable pub next_free_entry_offset : CommonTypeHeader → ℕ
next_free_entry_offset h = h.expired_time_low + 2 ^ 32 * (h.value % 2 ^ 32)

unfoldable pub set_next_free_entry_offset : ℕ → CommonTypeHeader → CommonTypeHeader
set_next_free_entry_offset o h = record h {
  expired_time_low = o % 2 ^ 32;
  value = o / 2 ^ 32 + 2 ^ 32 * (h.value / 2 ^ 32);
}

pub record ComplexTypeHeader : Type 0 where
  pub value_type : ℕ
  pub value_state : ℕ
  pub expired_time_high : ℕ
  pub expired_time_low : ℕ
  pub overall_size : ℕ
  pub chunk_size : ℕ
  pub sequel_offset : ℕ
  pub next_free_entry_offset : ℕ

abbrev pub complex_type_header : Packed ComplexTypeHeader
complex_type_header = record {
  widths = 1 ∷ 1 ∷ 2 ∷ 4 ∷ 8 ∷ 8 ∷ 8 ∷ 8 ∷ [];
  fields = λ h.
      h.value_type ∷ h.value_state ∷ h.expired_time_high ∷ h.expired_time_low ∷ h.overall_size
      ∷ h.chunk_size ∷ h.sequel_offset ∷ h.next_free_entry_offset ∷ [];
  make = λ vs. record {
    value_type = get_or vs 0 0;
    value_state = get_or vs 1 0;
    expired_time_high = get_or vs 2 0;
    expired_time_low = get_or vs 3 0;
    overall_size = get_or vs 4 0;
    chunk_size = get_or vs 5 0;
    sequel_offset = get_or vs 6 0;
    next_free_entry_offset = get_or vs 7 0;
  };
  make-fields = λ h. refl;
}

-- `PVState`, the first two bytes of every entry.
pub record PvState : Type 0 where
  pub value_type : ℕ
  pub value_state : ℕ

abbrev pub pv_state : Packed PvState
pv_state = record {
  widths = 1 ∷ 1 ∷ [];
  fields = λ h. h.value_type ∷ h.value_state ∷ [];
  make = λ vs. record { value_type = get_or vs 0 0; value_state = get_or vs 1 0 };
  make-fields = λ h. refl;
}

-- `offset_of(&ComplexTypeHeader::data_)`: the data lies over the link to the next free entry.
abbrev pub data_offset : ℕ
data_offset = 32
