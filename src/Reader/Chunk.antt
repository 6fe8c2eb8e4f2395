-- ===== src/Reader/Chunk.antt =====
-- One chunk of data: what `WriteComplexType` writes, `ReadComplexType` reads.
use yet_another_storage.Prelude.{
  ℕ, zero, suc, ◌+◌, ◌%◌, ◌^◌, ◌≤◌, ◌<◌, min, ◌≡◌, refl, ap, ◌∙◌, subst, inl, true, false, List, [],
  ◌∷◌, ◌++◌, length, take, arith, ltb,
}
use yet_another_storage.Exec.{ok}
use yet_another_storage.Device.{Device, IsReliable}
use yet_another_storage.Bytes.Slice.{take-length, slice, slice-add}
use yet_another_storage.Bytes.Packed.{
  pack, save_as_bytes, InRange, from_bytes, length-save_as_bytes,
}
use yet_another_storage.Layout.{ComplexTypeHeader, complex_type_header, data_offset}
use yet_another_storage.Layout.Types
use yet_another_storage.Reader.{
  read_header, check_complex_type_header, read_chunk, read_sequels, read_complex_type,
  written_header, write_complex_type, maximum_type_size,
}
use yet_another_storage.Reader.Stored.{
  Holds, IsAddressable, Holds-append, Holds-write_self, Holds-write_ne, read_Holds,
  write_header_lem, read_header_lem, length-write_state,
}
use yet_another_storage.Reader.Prefix.{
  data_prefix, PrefixInRange, save_as_bytes-eq-prefix, length-data_prefix, load_from_bytes-prefix,
}

pub check_begins :
    {S : Type 0} (cluster_size : ℕ) (h : ComplexTypeHeader) (s : S)
    → Types.has_state h.value_state Types.complex_begin ≡ true
    → h.chunk_size ≤ cluster_size
    → h.overall_size ≤ maximum_type_size
    → check_complex_type_header cluster_size h true s ≡ (ok tt, s)
unfolding check_complex_type_header
check_begins cluster_size h s begins fits small =
    let c : ltb cluster_size h.chunk_size ≡ false = ground arith in
    let m : ltb maximum_type_size h.overall_size ≡ false = ground arith in rw (begins, c, m) refl

module _ (d : Device) (r : IsReliable d) where
  open r use {content, write_state, read_lem, write_lem, content-write_state}

  -- A header whose fields before the data stand on the device is read with some link.
  pub read_header-prefix :
      (h : ComplexTypeHeader) (p : ℕ) (s : d.Dev)
      → IsAddressable d r s
      → PrefixInRange h
      → p + 40 ≤ length (content s)
      → Holds d r s p (data_prefix h)
      → read_header d complex_type_header p s ≡ (
        ok (record h {
          next_free_entry_offset = from_bytes (take 8 (slice (p + 32) 8 (content s)));
        }),
        s,
      )
  unfolding read_header
  read_header-prefix h p s a i long held =
      let link = slice (p + 32) 8 (content s) in
      let same : slice p 32 (content s) ≡ data_prefix h =
        subst (λ n. slice p n (content s) ≡ data_prefix h) (length-data_prefix h i) held.1 in
      let bytes : slice p 40 (content s) ≡ data_prefix h ++ link =
        slice-add p 32 8 (content s) long ∙ ap (λ xs. xs ++ link) same in
      rw (read_lem p 40 s long (omega arith), bytes, load_from_bytes-prefix h link i) refl

  -- What the loop over the sequels does when all bytes have been read.
  pub read_sequels_done :
      (cluster_size fuel overall readed : ℕ) (h : ComplexTypeHeader) (bs : List ℕ) (s : d.Dev)
      → overall ≤ readed
      → read_sequels d cluster_size fuel overall readed h bs s ≡ (ok bs, s)
  unfolding read_sequels
  read_sequels_done cluster_size zero overall readed h bs s le = ground arith
  read_sequels_done cluster_size (suc fuel) overall readed h bs s le =
      let e : ltb readed overall ≡ false = ground arith in rw e refl

  pub read_chunk_lem :
      (cluster_size overall readed p : ℕ) (h : ComplexTypeHeader) (bs : List ℕ) (s : d.Dev)
      → IsAddressable d r s
      → Holds d r s (p + data_offset) bs
      → h.chunk_size ≡ length bs
      → readed + h.chunk_size ≤ overall
      → read_chunk d cluster_size overall readed p h s ≡ (ok bs, s)
  unfolding read_chunk
  read_chunk_lem cluster_size overall readed p h bs s a body single room =
      let e : ltb overall (readed + h.chunk_size) ≡ false = ground arith in
      let within : (p + data_offset) % 2 ^ 64 ≡ p + data_offset = omega arith in
      rw (e, within) (read_Holds d r (p + data_offset) h.chunk_size bs s a body single)

  -- One chunk that begins a value and holds all of it is what is read there.
  pub read_complex_type-single :
      (cluster_size : ℕ) (h : ComplexTypeHeader) (p : ℕ) (bs : List ℕ) (s : d.Dev)
      → IsAddressable d r s
      → PrefixInRange h
      → p + 40 ≤ length (content s)
      → Holds d r s p (data_prefix h)
      → Holds d r s (p + data_offset) bs
      → h.value_state ≡ Types.complex_begin
      → h.overall_size ≡ length bs
      → h.chunk_size ≡ length bs
      → length bs ≤ cluster_size
      → length bs ≤ maximum_type_size
      → read_complex_type d cluster_size p s ≡ (ok bs, s)
  unfolding read_complex_type
  read_complex_type-single cluster_size h p bs s a i long head body begins whole single fits small =
      let h' = record h {
        next_free_entry_offset = from_bytes (take 8 (slice (p + 32) 8 (content s)));
      } in
      let state = ap (λ v. Types.has_state v Types.complex_begin) begins in
      rw
        (
          read_header-prefix h p s a i long head,
          check_begins cluster_size h' s state (omega arith) (omega arith),
          read_chunk_lem cluster_size h.overall_size 0 p h' bs s a body single (omega arith),
        )
        (read_sequels_done cluster_size h.overall_size h.overall_size h.chunk_size h' bs s
          (omega arith))

  -- `WriteComplexType` where the entry has room for all the data: the header, and the data behind it.
  pub written_single :
      (pv_type next p : ℕ) (h : ComplexTypeHeader) (bs : List ℕ) (s : d.Dev)
      → IsAddressable d r s
      → InRange complex_type_header h
      → Holds d r s p (save_as_bytes complex_type_header h)
      → length bs ≤ h.chunk_size
      → write_complex_type d p pv_type true next bs s ≡ (
        ok (length bs),
        write_state (p + data_offset) bs (
            write_state p
              (save_as_bytes complex_type_header (written_header pv_type true next (length bs) h))
              s),
      )
  unfolding write_complex_type
  written_single pv_type next p h bs s a i held room =
      let h' = written_header pv_type true next (length bs) h in
      let s' = write_state p (save_as_bytes complex_type_header h') s in
      let size = length-save_as_bytes complex_type_header h i in
      let all : min h.chunk_size (length bs) ≡ length bs = omega arith in
      let within : (p + data_offset) % 2 ^ 64 ≡ p + data_offset = omega arith in
      let longer =
        length-write_state d r p (save_as_bytes complex_type_header h') s (omega arith) in
      rw
        (
          read_header_lem d r complex_type_header h p s a i held,
          write_header_lem d r complex_type_header h' p s (omega arith),
          all,
          within,
          take-length bs,
          write_lem (p + data_offset) bs s' (omega arith),
        )
        refl

  -- The device behind a chunk that was written.
  abbrev pub after_chunk : ℕ → ComplexTypeHeader → List ℕ → d.Dev → d.Dev
  after_chunk p h bs s =
      write_state (p + data_offset) bs (write_state p (save_as_bytes complex_type_header h) s)

  -- A header and the data behind it, where data lies over the link.
  pub record ChunkAt (s : d.Dev) (p : ℕ) (h : ComplexTypeHeader) (bs : List ℕ) : Type 0 where
    pub addressable : IsAddressable d r s
    pub in_range : PrefixInRange h
    pub room : p + 40 ≤ length (content s)
    pub head : Holds d r s p (data_prefix h)
    pub body : Holds d r s (p + data_offset) bs

  pub ChunkAt-written :
      (p : ℕ) (h : ComplexTypeHeader) (bs : List ℕ) (s : d.Dev)
      → p + 40 + length bs < 2 ^ 64
      → IsAddressable d r s
      → InRange complex_type_header h
      → p + 40 ≤ length (content s)
      → ChunkAt (after_chunk p h bs s) p h bs
  ChunkAt-written p h bs s top a i inside =
      let header = save_as_bytes complex_type_header h in
      let i' : PrefixInRange h = omega (arith, i) in
      let s₁ = write_state p header s in
      let size = length-save_as_bytes complex_type_header h i in
      let l₁ = length-write_state d r p header s (omega arith) in
      let l₂ = length-write_state d r (p + data_offset) bs s₁ (omega arith) in
      let link = pack (8 ∷ []) (h.next_free_entry_offset ∷ []) in
      let full : Holds d r s₁ p (data_prefix h ++ link) =
        subst (Holds d r s₁ p) (save_as_bytes-eq-prefix h i')
          (Holds-write_self d r p header s (omega arith)) in
      let short = length-data_prefix h i' in
      record {
        addressable = omega arith;
        in_range = i';
        room = omega arith;
        head =
            Holds-write_ne d r (p + data_offset) p bs (data_prefix h) s₁ (omega arith)
              (inl (omega arith)) (Holds-append d r s₁ p (data_prefix h) link full).0;
        body = Holds-write_self d r (p + data_offset) bs s₁ (omega arith);
      }

  -- On a reliable device with 64-bit offsets, data that `WriteComplexType` has written as the
  -- first and only chunk of a value, into a free entry with room for it, is what `ReadComplexType`
  -- returns, if the data has at most the size of a cluster and of the greatest value.
  pub read_complex_type-write_complex_type :
      (cluster_size pv_type next p : ℕ) (h : ComplexTypeHeader) (bs : List ℕ) (s : d.Dev)
      → p + 40 + length bs < 2 ^ 64
      → IsAddressable d r s
      → pv_type < 256
      → next < 2 ^ 64
      → InRange complex_type_header h
      → Holds d r s p (save_as_bytes complex_type_header h)
      → length bs ≤ h.chunk_size
      → length bs ≤ cluster_size
      → length bs ≤ maximum_type_size
      → (s' : d.Dev) × (write_complex_type d p pv_type true next bs s ≡ (ok (length bs), s'))
        × (read_complex_type d cluster_size p s' ≡ (ok bs, s'))
  unfolding written_header
  read_complex_type-write_complex_type cluster_size pv_type next p h bs s top a t n i held room fits
        small =
      let h' = written_header pv_type true next (length bs) h in
      let size = length-save_as_bytes complex_type_header h i in
      let at = ChunkAt-written p h' bs s top a (omega arith) (omega arith) in
      (
        after_chunk p h' bs s,
        written_single pv_type next p h bs s a i held room,
        read_complex_type-single cluster_size h' p bs (after_chunk p h' bs s) at.addressable
            at.in_range at.room at.head at.body refl refl (omega arith) fits small,
      )
