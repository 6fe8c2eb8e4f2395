-- ===== src/Reader/Sequels.antt =====
-- A value in several chunks: what `ReadComplexType` makes of them.
use yet_another_storage.Prelude.{
  ℕ, zero, suc, ◌+◌, ◌≤◌, ◌<◌, ◌≡◌, refl, ap, sym, ◌∙◌, true, false, List, [], ◌∷◌, ◌++◌, length,
  take, arith, ltb, length-append,
}
use mathlib.Core.List.{append_assoc, append-nil}
use yet_another_storage.Exec.{ok}
use yet_another_storage.Device.{Device, IsReliable}
use yet_another_storage.Bytes.Slice.{slice}
use yet_another_storage.Bytes.Packed.{from_bytes}
use yet_another_storage.Layout.{ComplexTypeHeader}
use yet_another_storage.Layout.Types
use yet_another_storage.Reader.{
  check_complex_type_header, read_sequels, read_complex_type, maximum_type_size,
}
use yet_another_storage.Reader.Chunk.{
  ChunkAt, check_begins, read_header-prefix, read_chunk_lem, read_sequels_done,
}

-- A chunk with its data.
pub record Piece : Type 0 where
  pub header : ComplexTypeHeader
  pub bytes : List ℕ

unfoldable pub bytes_of : List Piece → List ℕ
bytes_of [] = []
bytes_of (x ∷ xs) = x.bytes ++ bytes_of xs

check_sequel :
    {S : Type 0} (cluster_size : ℕ) (h : ComplexTypeHeader) (s : S)
    → Types.has_state h.value_state Types.complex_sequel ≡ true
    → h.chunk_size ≤ cluster_size
    → h.overall_size ≤ maximum_type_size
    → check_complex_type_header cluster_size h false s ≡ (ok tt, s)
unfolding check_complex_type_header
check_sequel cluster_size h s sequel fits small =
    let c : ltb cluster_size h.chunk_size ≡ false = ground arith in
    let m : ltb maximum_type_size h.overall_size ≡ false = ground arith in rw (sequel, c, m) refl

module _ (d : Device) (r : IsReliable d) (cluster_size : ℕ) where
  open r use {content}

  -- A chunk of a value stands at the offset, with some data.
  pub record PieceAt (s : d.Dev) (p : ℕ) (x : Piece) : Type 0 where
    pub chunk : ChunkAt d r s p x.header x.bytes
    pub some_bytes : 0 < length x.bytes
    pub single : x.header.chunk_size ≡ length x.bytes
    pub fits : length x.bytes ≤ cluster_size
    pub small : x.header.overall_size ≤ maximum_type_size

  -- The sequels stand one after another, each where the header before it says.
  unfoldable pub SequelsAt : d.Dev → ℕ → List Piece → Type 0
  SequelsAt s p [] = Unit
  SequelsAt s p (x ∷ xs) =
      PieceAt s p x
      × (Types.has_state x.header.value_state Types.complex_sequel ≡ true)
      × SequelsAt s x.header.sequel_offset xs

  -- The header as it is read, with what lies over its link.
  abbrev read_as : d.Dev → ℕ → ComplexTypeHeader → ComplexTypeHeader
  read_as s p h = record h {
    next_free_entry_offset = from_bytes (take 8 (slice (p + 32) 8 (content s)));
  }

  read_sequels-cons :
      (fuel overall readed : ℕ) (h : ComplexTypeHeader) (bs : List ℕ) (s : d.Dev) (x : Piece)
      → readed < overall
      → PieceAt s h.sequel_offset x
      → Types.has_state x.header.value_state Types.complex_sequel ≡ true
      → readed + length x.bytes ≤ overall
      → read_sequels d cluster_size (suc fuel) overall readed h bs s
        ≡ read_sequels d cluster_size fuel overall
            (readed + x.header.chunk_size)
            (read_as s h.sequel_offset x.header)
            (bs ++ x.bytes)
            s
  unfolding read_sequels
  read_sequels-cons fuel overall readed h bs s x more at sequel room =
      let p = h.sequel_offset in
      let h' = read_as s p x.header in
      let c = at.chunk in
      let size = at.single in
      let fit = at.fits in
      let lt : ltb readed overall ≡ true = ground arith in
      let head = read_header-prefix d r x.header p s c.addressable c.in_range c.room c.head in
      let checked = check_sequel cluster_size h' s sequel (omega arith) at.small in
      let piece =
        read_chunk_lem d r cluster_size overall readed p h' x.bytes s c.addressable c.body at.single
          (omega arith) in
      rw (lt, head) (rw (checked, piece) refl)

  read_sequels-SequelsAt :
      (fuel overall readed : ℕ) (h : ComplexTypeHeader) (bs : List ℕ) (s : d.Dev) (xs : List Piece)
      → SequelsAt s h.sequel_offset xs
      → readed + length (bytes_of xs) ≡ overall
      → length (bytes_of xs) ≤ fuel
      → read_sequels d cluster_size fuel overall readed h bs s ≡ (ok (bs ++ bytes_of xs), s)
  unfolding bytes_of SequelsAt
  read_sequels-SequelsAt fuel overall readed h bs s [] at sum enough =
      read_sequels_done d r cluster_size fuel overall readed h bs s (omega arith)
      ∙ ap (λ b. (ok b, s)) (sym (append-nil bs))
  read_sequels-SequelsAt zero overall readed h bs s (x ∷ xs) at sum enough =
      let some_bytes = at.0.some_bytes in
      absurd (omega (arith, length-append x.bytes (bytes_of xs)))
  read_sequels-SequelsAt (suc fuel) overall readed h bs s (x ∷ xs) at sum enough =
      let some_bytes = at.0.some_bytes in
      let size = at.0.single in
      let both = length-append x.bytes (bytes_of xs) in
      read_sequels-cons fuel overall readed h bs s x (omega arith) at.0 at.1 (omega arith)
      ∙ read_sequels-SequelsAt fuel overall (readed + x.header.chunk_size)
          (read_as s h.sequel_offset x.header) (bs ++ x.bytes) s xs at.2 (omega arith) (omega arith)
      ∙ ap (λ b. (ok b, s)) (append_assoc bs x.bytes (bytes_of xs))

  -- On a reliable device with 64-bit offsets, where the chunks of a value stand, each with some data,
  -- at most a cluster of it, where the one before says, marked as a beginning and as sequels,
  -- and with the size of all data in the first, which is at most the greatest size of a value,
  -- `ReadComplexType` returns, and its result is the data of the chunks in their order.
  pub read_complex_type-SequelsAt :
      (p : ℕ) (x : Piece) (xs : List Piece) (s : d.Dev)
      → PieceAt s p x
      → Types.has_state x.header.value_state Types.complex_begin ≡ true
      → SequelsAt s x.header.sequel_offset xs
      → x.header.overall_size ≡ length (bytes_of (x ∷ xs))
      → read_complex_type d cluster_size p s ≡ (ok (bytes_of (x ∷ xs)), s)
  unfolding read_complex_type bytes_of
  read_complex_type-SequelsAt p x xs s at begins sequels whole =
      let h' = read_as s p x.header in
      let c = at.chunk in
      let size = at.single in
      let fit = at.fits in
      let both = length-append x.bytes (bytes_of xs) in
      let head = read_header-prefix d r x.header p s c.addressable c.in_range c.room c.head in
      let checked = check_begins cluster_size h' s begins (omega arith) at.small in
      let piece =
        read_chunk_lem d r cluster_size x.header.overall_size 0 p h' x.bytes s c.addressable c.body
          at.single (omega arith) in
      rw (head, checked, piece)
        (read_sequels-SequelsAt x.header.overall_size x.header.overall_size x.header.chunk_size h'
          x.bytes s xs sequels (omega arith) (omega arith))
