-- ===== src/Freelist.antt =====
-- include/storage/lib/physical_volume/FreelistHelper.hpp: eleven bins, each with the offset of
-- the first free entry of its list, by the size of the entries.
pub mod Bins
pub mod PushPop
pub mod Restore
use yet_another_storage.Prelude.{
  ℕ, zero, suc, ◌-◌, Bool, true, false, not, ◌&&◌, Option, none, some, List, [], ◌∷◌, ltb, leb,
  ◌==◌, if◌then◌else◌, length, map,
}

-- `offset_traits::NonExistValue` and `IsExistValue`
abbrev pub non_exist_offset : ℕ
non_exist_offset = 0

abbrev pub is_exist_offset : ℕ → Bool
is_exist_offset value = not (value == non_exist_offset)

abbrev pub default_cluster_size : ℕ
default_cluster_size = 3840

abbrev pub bin_count : ℕ
bin_count = 11

-- The first two are the sizes of `Simple4TypeHeader` and `Simple8TypeHeader`.
abbrev pub freelist_limits : List ℕ
freelist_limits =
    12 ∷ 16 ∷ 64 ∷ 100 ∷ 128 ∷ 256 ∷ 512 ∷ 1024 ∷ 1520 ∷ 2048 ∷ default_cluster_size ∷ []

pub record BinDescriptor : Type 0 where
  pub offset : ℕ
  pub limit : ℕ

-- `bin_descriptors_`
abbrev pub Bins : Type 0
Bins = List BinDescriptor

-- The constructor from a header and `SetBins`: the header's offsets beside the limits.
unfoldable pub bins_of : List ℕ → List ℕ → Bins
bins_of [] limits = []
bins_of (o ∷ os) [] = []
bins_of (o ∷ os) (l ∷ ls) = record { offset = o; limit = l } ∷ bins_of os ls

unfoldable pub set_bins : List ℕ → Bins
unfolding bins_of
set_bins header = bins_of header freelist_limits

-- The default constructor.
unfoldable pub new_bins : Bins
unfolding bins_of
new_bins = bins_of (map (λ _. non_exist_offset) freelist_limits) freelist_limits

-- `GetBins`
unfoldable pub get_bins : Bins → List ℕ
get_bins = map (λ b. b.offset)

-- `bin_descriptors_[bin_id].offset_`, and a write to it
unfoldable pub offset_at : ℕ → Bins → ℕ
offset_at i [] = non_exist_offset
offset_at zero (b ∷ bs) = b.offset
offset_at (suc i) (b ∷ bs) = offset_at i bs

unfoldable pub set_offset_at : ℕ → ℕ → Bins → Bins
set_offset_at i o [] = []
set_offset_at zero o (b ∷ bs) = record b { offset = o } ∷ bs
set_offset_at (suc i) o (b ∷ bs) = b ∷ set_offset_at i o bs

-- How the loop of `PopFreeEntryOffset` ends: at a bin that fits, or behind the last bin, with
-- `last_viewed_freed_bin_id` (`none` for -1).
pub data Scan : Type 0 where
  found : ℕ → Scan
  ended : Option ℕ → Scan

unfoldable pub scan : ℕ → Bool → ℕ → Option ℕ → Bins → Scan
scan entry_size is_less_cluster_size bin_id last_viewed [] = ended last_viewed
scan entry_size is_less_cluster_size bin_id last_viewed (b ∷ bs) =
    let rest =
      scan entry_size is_less_cluster_size (suc bin_id)
        (if not is_less_cluster_size && is_exist_offset b.offset then some bin_id else last_viewed)
        bs in
    if leb entry_size b.limit && is_exist_offset b.offset then found bin_id else rest

-- What follows the loop.
unfoldable pub take_bin : Bool → Scan → Bins → ℕ × Bins
unfolding offset_at set_offset_at
take_bin is_less_cluster_size (found i) bins =
    (offset_at i bins, set_offset_at i non_exist_offset bins)
take_bin is_less_cluster_size (ended none) bins = (non_exist_offset, bins)
take_bin is_less_cluster_size (ended (some i)) bins =
    if not is_less_cluster_size && ltb 5 i
    then (offset_at i bins, set_offset_at i non_exist_offset bins)
    else (non_exist_offset, bins)

-- `PopFreeEntryOffset`
unfoldable pub pop_free_entry_offset : ℕ → Bins → ℕ × Bins
unfolding scan take_bin
pop_free_entry_offset entry_size bins =
    let is_less_cluster_size = ltb entry_size default_cluster_size in
    take_bin is_less_cluster_size (scan entry_size is_less_cluster_size 0 none bins) bins

-- `std::lower_bound` over the limits, which grow: the first bin whose limit is not below the size.
unfoldable pub lower_bound : ℕ → Bins → ℕ
lower_bound entry_size [] = 0
lower_bound entry_size (b ∷ bs) =
    if ltb b.limit entry_size then suc (lower_bound entry_size bs) else 0

-- `getBinIdForSize`
unfoldable pub get_bin_id_for_size : ℕ → Bins → ℕ
unfolding lower_bound
get_bin_id_for_size entry_size bins =
    let found_value = lower_bound entry_size bins in
    if length bins == found_value then bin_count - 1 else found_value

-- `PushFreeEntry`: the offset that the bin held, and the bins with the new one.
unfoldable pub push_free_entry : ℕ → ℕ → Bins → ℕ × Bins
unfolding get_bin_id_for_size offset_at set_offset_at
push_free_entry new_offset entry_size bins =
    let bin_id = get_bin_id_for_size entry_size bins in
    (offset_at bin_id bins, set_offset_at bin_id new_offset bins)

-- `GetFreeEntry`
unfoldable pub get_free_entry : ℕ → Bins → ℕ
unfolding get_bin_id_for_size offset_at
get_free_entry entry_size bins =
    let size = if ltb default_cluster_size entry_size then default_cluster_size else entry_size in
    offset_at (get_bin_id_for_size size bins) bins
