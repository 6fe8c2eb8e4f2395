-- ===== src/Entries/Complex.antt =====
-- `CreateNewEntryValue` for a string or a blob that one free entry has room for.
use yet_another_storage.Prelude.{
  ℕ, zero, suc, ◌+◌, ◌-◌, ◌≤◌, ◌<◌, ◌^◌, ◌≡◌, refl, ap, ◌∙◌, true, false, none, List, [], ◌∷◌,
  length, take, arith, ltb,
}
use yet_another_storage.Exec.{ok}
use yet_another_storage.Device.{Device, IsReliable}
use yet_another_storage.Allocator.{DoubleOps}
use yet_another_storage.Bytes.Packed.{save_as_bytes, InRange, from_bytes, length-save_as_bytes}
use yet_another_storage.Bytes.Slice.{slice}
use yet_another_storage.Reader.{
  read_header, read_complex_type, written_header, write_complex_type, maximum_type_size,
}
use yet_another_storage.Reader.Stored.{Holds, IsAddressable}
use yet_another_storage.Reader.Prefix.{data_prefix}
use yet_another_storage.Reader.Chunk.{
  ChunkAt, ChunkAt-written, after_chunk, read_header-prefix, read_complex_type-single,
  written_single,
}
use yet_another_storage.Layout.{ComplexTypeHeader, complex_type_header}
use yet_another_storage.Layout.Types
use yet_another_storage.Entries.{Chance, on_device}
use yet_another_storage.Entries.Types.{
  StorageValue, EntryKind, string, blob, string_kind, blob_kind, convert_to_entry_type,
  convert_bytes,
}
use yet_another_storage.Entries.Allocate.{State, get_entry_type, get_free_entry_offset}
use yet_another_storage.Entries.Operations.{
  create_new_entry_value, write_complex, write_chunks, content_of_kind, date_of_kind,
  get_entry_content, get_complex_content, get_entry_expired_date, get_complex_date,
}
use yet_another_storage.Entries.Standing.{get_entry_type_lem, on_device_ok}

-- The types that are kept in chunks.
pub data ComplexType : Type 0 where
  characters bytes : ComplexType

abbrev pub complex_code : ComplexType → ℕ
complex_code characters = Types.string
complex_code bytes = Types.blob

abbrev pub complex_value : ComplexType → List ℕ → StorageValue
complex_value characters bs = string bs
complex_value bytes bs = blob bs

abbrev complex_kind : ComplexType → EntryKind
complex_kind characters = string_kind
complex_kind bytes = blob_kind

convert_to_entry_type-complex_code :
    {S : Type 0} (t : ComplexType) (s : S)
    → convert_to_entry_type (complex_code t) s ≡ (ok (complex_kind t), s)
unfolding convert_to_entry_type
convert_to_entry_type-complex_code characters s = refl
convert_to_entry_type-complex_code bytes s = refl

convert_bytes-complex_code :
    {S : Type 0} (t : ComplexType) (bs : List ℕ) (s : S)
    → convert_bytes (complex_code t) bs s ≡ (ok (complex_value t bs), s)
unfolding convert_bytes
convert_bytes-complex_code characters bs s = refl
convert_bytes-complex_code bytes bs s = refl

module _ (d : Device) (f : DoubleOps) (c : Chance) where
  content_of_kind-complex :
      (t : ComplexType) (p : ℕ) (m : State d f c)
      → content_of_kind d f c (complex_kind t) p m ≡ get_complex_content d f c p m
  unfolding content_of_kind
  content_of_kind-complex characters p m = refl
  content_of_kind-complex bytes p m = refl

  date_of_kind-complex :
      (t : ComplexType) (p : ℕ) (m : State d f c)
      → date_of_kind d f c (complex_kind t) p m ≡ get_complex_date d f c p m
  unfolding date_of_kind
  date_of_kind-complex characters p m = refl
  date_of_kind-complex bytes p m = refl

module _ (d : Device) (r : IsReliable d) (f : DoubleOps) (c : Chance) where
  open r use {content}

  -- A value that stands in one chunk at the offset.
  pub record ValueAt (m : State d f c) (p : ℕ) (t : ComplexType) (bs : List ℕ) : Type 0 where
    pub header : ComplexTypeHeader
    pub chunk : ChunkAt d r m.device p header bs
    pub typed : header.value_type ≡ complex_code t
    pub begins : header.value_state ≡ Types.complex_begin
    pub overall : header.overall_size ≡ length bs
    pub single : header.chunk_size ≡ length bs
    pub fits : length bs ≤ m.reader_cluster_size
    pub small : length bs ≤ maximum_type_size

  module _ (m : State d f c) (p : ℕ) (t : ComplexType) (bs : List ℕ) (at : ValueAt m p t bs) where
    abbrev h : ComplexTypeHeader
    h = at.header

    ValueAt-type : get_entry_type d f c p m ≡ (ok (complex_code t), m)
    unfolding data_prefix
    ValueAt-type =
        get_entry_type_lem d r f c h.value_type h.value_state p (2 ∷ 4 ∷ 8 ∷ 8 ∷ 8 ∷ [])
          (h.expired_time_high ∷ h.expired_time_low ∷ h.overall_size ∷ h.chunk_size
            ∷ h.sequel_offset ∷ [])
          m at.chunk.addressable (at.chunk.in_range.0, (at.chunk.in_range.1.0, tt)) at.chunk.head
        ∙ ap (λ v. (ok v, m)) at.typed

    abbrev read_header_of : ComplexTypeHeader
    read_header_of = record h {
      next_free_entry_offset = from_bytes (take 8 (slice (p + 32) 8 (content m.device)));
    }

    ValueAt-read : on_device (read_header d complex_type_header p) m ≡ (ok read_header_of, m)
    ValueAt-read = on_device_ok (read_header d complex_type_header p) m (
        read_header-prefix d r h p m.device at.chunk.addressable at.chunk.in_range at.chunk.room
          at.chunk.head)

    ValueAt-bytes : on_device (read_complex_type d m.reader_cluster_size p) m ≡ (ok bs, m)
    ValueAt-bytes = on_device_ok (read_complex_type d m.reader_cluster_size p) m (
        read_complex_type-single d r m.reader_cluster_size h p bs m.device at.chunk.addressable
          at.chunk.in_range at.chunk.room at.chunk.head at.chunk.body at.begins at.overall at.single
          at.fits at.small)

    ValueAt-content : get_complex_content d f c p m ≡ (ok (complex_value t bs), m)
    unfolding get_complex_content
    ValueAt-content = rw (ValueAt-read, ValueAt-bytes, at.typed) (convert_bytes-complex_code t bs m)

    ValueAt-date : get_complex_date d f c p m ≡ (ok none, m)
    unfolding get_complex_date
    ValueAt-date = rw (ValueAt-read, at.begins) refl

    -- Its content is the value.
    pub get_entry_content-ValueAt : get_entry_content d f c p m ≡ (ok (complex_value t bs), m)
    unfolding get_entry_content
    get_entry_content-ValueAt =
        rw (ValueAt-type, convert_to_entry_type-complex_code t m)
          (content_of_kind-complex d f c t p m ∙ ValueAt-content)

    -- It has no expiry date.
    pub get_entry_expired_date-ValueAt : get_entry_expired_date d f c p m ≡ (ok none, m)
    unfolding get_entry_expired_date
    get_entry_expired_date-ValueAt =
        rw (ValueAt-type, convert_to_entry_type-complex_code t m)
          (date_of_kind-complex d f c t p m ∙ ValueAt-date)

  abbrev made : ComplexType → List ℕ → ℕ → ComplexTypeHeader → ComplexTypeHeader
  made t bs next h = written_header (complex_code t) true next (length bs) h

  create-complex :
      (t : ComplexType) (bs : List ℕ)
      → create_new_entry_value d f c (complex_value t bs) ≡ write_complex d f c (complex_code t) bs
  unfolding create_new_entry_value
  create-complex characters bs = refl
  create-complex bytes bs = refl

  write_chunks-done :
      (fuel code q : ℕ) (bs : List ℕ) (m : State d f c)
      → write_chunks d f c fuel code false q (0 + length bs) bs m ≡ (ok tt, m)
  unfolding write_chunks
  write_chunks-done zero code q bs m =
      let e : ltb (0 + length bs) (length bs) ≡ false = ground arith in rw e refl
  write_chunks-done (suc fuel) code q bs m =
      let e : ltb (0 + length bs) (length bs) ≡ false = ground arith in rw e refl

  -- The loop over the chunks, where the first one takes all bytes.
  write_chunks-single :
      (m₁ m₂ : State d f c) (p q code : ℕ) (bs : List ℕ) (s : d.Dev)
      → 0 < length bs
      → get_free_entry_offset d f c (length bs - 0 + 40) m₁ ≡ (ok q, m₂)
      → write_complex_type d p code true q bs m₂.device ≡ (ok (length bs), s)
      → write_chunks d f c (length bs) code true p 0 bs m₁ ≡ (ok tt, record m₂ { device = s })
  unfolding write_chunks
  write_chunks-single m₁ m₂ p q code [] s h second written = absurd (omega arith)
  write_chunks-single m₁ m₂ p q code (b ∷ bs) s h second written =
      let more : ltb 0 (length (b ∷ bs)) ≡ true = ground arith in
      rw (more, second)
        (rw (on_device_ok (write_complex_type d p code true q (b ∷ bs)) m₂ written)
          (write_chunks-done (length bs) code q (b ∷ bs) (record m₂ { device = s })))

  made-InRange :
      (t : ComplexType) (bs : List ℕ) (q : ℕ) (h : ComplexTypeHeader)
      → InRange complex_type_header h
      → q < 2 ^ 64
      → length bs ≤ maximum_type_size
      → InRange complex_type_header (made t bs q h)
  unfolding written_header
  made-InRange characters bs q h i room small = omega (arith, i)
  made-InRange bytes bs q h i room small = omega (arith, i)

  -- On a reliable device with 64-bit offsets, where the allocator finds a free entry with room for
  -- all of a string or blob that is not empty, and another one after it,
  -- `CreateNewEntryValue` returns the offset of the first, and the value stands there.
  pub create_new_entry_value-ValueAt :
      (m m₁ m₂ : State d f c) (p q : ℕ) (t : ComplexType) (bs : List ℕ) (h : ComplexTypeHeader)
      → get_free_entry_offset d f c (length bs + 40) m ≡ (ok p, m₁)
      → get_free_entry_offset d f c (length bs - 0 + 40) m₁ ≡ (ok q, m₂)
      → 0 < length bs
      → p + 40 + length bs < 2 ^ 64
      → q < 2 ^ 64
      → IsAddressable d r m₂.device
      → InRange complex_type_header h
      → Holds d r m₂.device p (save_as_bytes complex_type_header h)
      → length bs ≤ h.chunk_size
      → length bs ≤ m₂.reader_cluster_size
      → length bs ≤ maximum_type_size
      → (s : d.Dev) × (create_new_entry_value d f c (complex_value t bs) m
          ≡ (ok p, record m₂ { device = s }))
        × ValueAt (record m₂ { device = s }) p t bs
  unfolding write_complex written_header
  create_new_entry_value-ValueAt m m₁ m₂ p q t bs h first second some_bytes top room a i held chunk
        fits small =
      let h' = made t bs q h in
      let s = after_chunk d r p h' bs m₂.device in
      let size = length-save_as_bytes complex_type_header h i in
      let written = written_single d r (complex_code t) q p h bs m₂.device a i held chunk in
      let at =
        ChunkAt-written d r p h' bs m₂.device top a (made-InRange t bs q h i room small)
          (omega arith) in
      (
        s,
        ap (λ g. g m) (create-complex t bs)
            ∙ rw
                (
                  first,
                  write_chunks-single m₁ m₂ p q (complex_code t) bs s some_bytes second written,
                )
                refl,
        record {
          header = h';
          chunk = at;
          typed = refl;
          begins = refl;
          overall = refl;
          single = omega arith;
          fits = fits;
          small = small;
        },
      )
