-- ===== src/Reader/Prefix.antt =====
-- The header of a chunk without its link, over which data lies.
use yet_another_storage.Prelude.{ℕ, ◌≡◌, ap, List, [], ◌∷◌, ◌++◌, length, take}
use yet_another_storage.Bytes.Packed.{
  Fits, pack, length-pack, unpack-pack_append, pack-append, load_from_bytes, save_as_bytes,
  from_bytes,
}
use yet_another_storage.Layout.{ComplexTypeHeader, complex_type_header, data_offset}

-- The fields before the data: all but the link, over which the data lies.
abbrev pub prefix_widths : List ℕ
prefix_widths = 1 ∷ 1 ∷ 2 ∷ 4 ∷ 8 ∷ 8 ∷ 8 ∷ []

abbrev pub prefix_fields : ComplexTypeHeader → List ℕ
prefix_fields h =
    h.value_type ∷ h.value_state ∷ h.expired_time_high ∷ h.expired_time_low ∷ h.overall_size
    ∷ h.chunk_size ∷ h.sequel_offset ∷ []

unfoldable pub data_prefix : ComplexTypeHeader → List ℕ
data_prefix h = pack prefix_widths (prefix_fields h)

abbrev pub PrefixInRange : ComplexTypeHeader → Type 0
PrefixInRange h = Fits prefix_widths (prefix_fields h)

pub save_as_bytes-eq-prefix :
    (h : ComplexTypeHeader)
    → PrefixInRange h
    → save_as_bytes complex_type_header h
      ≡ data_prefix h ++ pack (8 ∷ []) (h.next_free_entry_offset ∷ [])
unfolding save_as_bytes data_prefix
save_as_bytes-eq-prefix h i =
    pack-append prefix_widths (8 ∷ []) (prefix_fields h) (h.next_free_entry_offset ∷ []) i

pub length-data_prefix :
    (h : ComplexTypeHeader) → PrefixInRange h → length (data_prefix h) ≡ data_offset
unfolding data_prefix
length-data_prefix h i = length-pack prefix_widths (prefix_fields h) i

pub load_from_bytes-prefix :
    (h : ComplexTypeHeader) (ys : List ℕ)
    → PrefixInRange h
    → load_from_bytes complex_type_header (data_prefix h ++ ys)
      ≡ record h { next_free_entry_offset = from_bytes (take 8 ys) }
unfolding load_from_bytes data_prefix
load_from_bytes-prefix h ys i =
    ap complex_type_header.make (unpack-pack_append prefix_widths (8 ∷ []) (prefix_fields h) ys i)
