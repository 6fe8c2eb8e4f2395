-- ===== src/Volume/Room.antt =====
-- A free entry that `close` finds for the index, and what `SaveStartEntries` leaves of it.
use yet_another_storage.Prelude.{ℕ, ◌+◌, ◌-◌, ◌≤◌, ◌<◌, ◌^◌, ◌≡◌, List, length, arith, inr}
use yet_another_storage.Exec.{ok}
use yet_another_storage.Device.{Device, IsReliable}
use yet_another_storage.Allocator.{DoubleOps}
use yet_another_storage.Bytes.Packed.{save_as_bytes, length-save_as_bytes, InRange}
use yet_another_storage.Reader.{maximum_type_size}
use yet_another_storage.Reader.Stored.{Holds, IsAddressable, Holds-write_ne, length-write_state}
use yet_another_storage.Reader.Chunk.{ChunkAt}
use yet_another_storage.Freelist.Bins.{HasLimits}
use yet_another_storage.Layout.{pv_header, freelist_header, complex_type_header, ComplexTypeHeader}
use yet_another_storage.Entries.{Chance}
use yet_another_storage.Entries.Allocate.{State, get_free_entry_offset}
use yet_another_storage.Entries.Operations
use yet_another_storage.Entries.Operations.{get_entry_content}
use yet_another_storage.Entries.Complex.{
  ValueAt, ComplexType, bytes, create_new_entry_value-ValueAt,
}
use yet_another_storage.Entries.Start.{start_header, pv_header_size, start_size}
use yet_another_storage.Entries.Start.Reload.{IsSavable, bins_header, saved}
use yet_another_storage.Entries.Types.{blob}
use yet_another_storage.Index.Serialization.Visits.{size}

module _ (d : Device) (r : IsReliable d) (f : DoubleOps) (c : Chance) where
  open r use {content, write_state}

  -- A write in front of a chunk leaves it.
  ChunkAt-write :
      (s : d.Dev) (p q : ℕ) (h : ComplexTypeHeader) (bs xs : List ℕ)
      → q + length xs ≤ p
      → ChunkAt d r s p h bs
      → ChunkAt d r (write_state q xs s) p h bs
  ChunkAt-write s p q h bs xs before at =
      let room = at.room in
      let addressable = at.addressable in
      let size = length-write_state d r q xs s (omega arith) in
      record {
        addressable = omega arith;
        in_range = at.in_range;
        room = omega arith;
        head = Holds-write_ne d r q p xs _ s (omega arith) (inr before) at.head;
        body = Holds-write_ne d r q (p + 32) xs bs s (omega arith) (inr (omega arith)) at.body;
      }

  -- `SaveStartEntries` leaves the values behind the start of the volume.
  pub ValueAt-saved :
      (m n : State d f c) (p i : ℕ) (t : ComplexType) (bs : List ℕ)
      → start_size ≤ p
      → IsSavable d r f c i m
      → length bs ≤ n.reader_cluster_size
      → ValueAt d r f c m p t bs
      → ValueAt d r f c (record n { device = (saved d r f c i m).device }) p t bs
  ValueAt-saved m n p i t bs behind w fits at =
      let head = save_as_bytes pv_header (start_header d f c i m) in
      let tail = save_as_bytes freelist_header (bins_header d r f c m) in
      let head_size = length-save_as_bytes pv_header (start_header d f c i m) w.header in
      let tail_size = length-save_as_bytes freelist_header (bins_header d r f c m) w.bins in
      record {
        header = at.header;
        chunk =
            ChunkAt-write (write_state 0 head m.device) p pv_header_size at.header bs tail
              (omega arith) (ChunkAt-write m.device p 0 at.header bs head (omega arith) at.chunk);
        typed = at.typed;
        begins = at.begins;
        overall = at.overall;
        single = at.single;
        fits = fits;
        small = at.small;
      }

  -- A free entry behind the start of the volume has room for so many bytes, the allocator finds
  -- it, and another one after it, and what `SaveStartEntries` saves then is in range.
  pub record HasRoom (m : State d f c) (size : ℕ) : Type 0 where
    pub place : ℕ
    pub next : ℕ
    pub found : State d f c
    pub taken : State d f c
    pub header : ComplexTypeHeader
    pub first : get_free_entry_offset d f c (size + 40) m ≡ (ok place, found)
    pub second : get_free_entry_offset d f c (size - 0 + 40) found ≡ (ok next, taken)
    pub behind : start_size ≤ place
    pub top : place + 40 + size < 2 ^ 64
    pub link : next < 2 ^ 64
    pub addressable : IsAddressable d r taken.device
    pub in_range : InRange complex_type_header header
    pub stands : Holds d r taken.device place (save_as_bytes complex_type_header header)
    pub enough : size ≤ header.chunk_size
    pub start : InRange pv_header (start_header d f c place taken)
    pub bins : InRange freelist_header (bins_header d r f c taken)
    pub limits : HasLimits taken.bins
    pub clusters : size ≤ taken.reader_cluster_size

  pub HasRoom-created :
      (m : State d f c) (bs : List ℕ) (h : HasRoom m (length bs))
      → 0 < length bs
      → length bs ≤ maximum_type_size
      → (s : d.Dev) × (Operations.create_new_entry_value d f c (blob bs) m
          ≡ (ok h.place, record h.taken { device = s }))
        × ValueAt d r f c (record h.taken { device = s }) h.place bytes bs
  HasRoom-created m bs h some_bytes small =
      create_new_entry_value-ValueAt d r f c m h.found h.taken h.place h.next bytes bs h.header
        h.first h.second some_bytes h.top h.link h.addressable h.in_range h.stands h.enough
        h.clusters small

  pub HasRoom-IsSavable :
      (m : State d f c) (size : ℕ) (h : HasRoom m size) (s : d.Dev)
      → IsAddressable d r s
      → IsSavable d r f c h.place (record h.taken { device = s })
  HasRoom-IsSavable m size h s a = record {
    header = h.start;
    bins = h.bins;
    limits = h.limits;
    addressable = a;
  }
