-- ===== src/Entries/Expiry.antt =====
-- `SetEntryExpiredDate` for a string or a blob.
use yet_another_storage.Prelude.{
  ℕ, ◌≤◌, ◌<◌, ◌^◌, ◌≡◌, refl, false, some, [], ◌∷◌, length, arith, ◌⊎◌, inl, inr,
}
use yet_another_storage.Utils.Time.{Time}
use yet_another_storage.Errors.{yas, corrupted_header_error}
use yet_another_storage.Exec.{ok, throw, Result}
use yet_another_storage.Device.{Device, IsReliable}
use yet_another_storage.Allocator.{DoubleOps}
use yet_another_storage.Bytes.Packed.{save_as_bytes, length-save_as_bytes, InRange}
use yet_another_storage.Reader.{
  read_header, write_header, read_complex_type, check_complex_type_header,
}
use yet_another_storage.Reader.Stored.{
  Holds, IsAddressable, Holds-write_self, write_header_lem, read_header_lem, length-write_state,
}
use yet_another_storage.Layout.{ComplexTypeHeader, complex_type_header}
use yet_another_storage.Layout.Types
use yet_another_storage.Entries.{Chance, on_device}
use yet_another_storage.Entries.Types.{string_kind, blob_kind, convert_to_entry_type, StorageValue}
use yet_another_storage.Entries.Allocate.{State, get_entry_type}
use yet_another_storage.Entries.Operations.{
  get_entry_content, get_complex_content, set_entry_expired_date, set_complex_date,
  get_entry_expired_date, get_complex_date, date_of,
}
use yet_another_storage.Entries.Standing.{get_entry_type_lem, on_device_ok}

abbrev pub IsComplexType : ℕ → Type 0
IsComplexType t = (t ≡ Types.string) ⊎ (t ≡ Types.blob)

complex_kind :
    {S : Type 0} (t : ℕ) (s : S)
    → IsComplexType t
    → (convert_to_entry_type t s ≡ (ok string_kind, s))
      ⊎ (convert_to_entry_type t s ≡ (ok blob_kind, s))
unfolding convert_to_entry_type
complex_kind t s (inl e) = inl (rw e refl)
complex_kind t s (inr e) = inr (rw e refl)

module _ (d : Device) (r : IsReliable d) (f : DoubleOps) (c : Chance) where
  open r use {content, write_state}

  -- The header of a string or blob stands at the offset, with whatever lies over its link.
  pub record ComplexAt (m : State d f c) (p : ℕ) (h : ComplexTypeHeader) : Type 0 where
    pub typed : IsComplexType h.value_type
    pub in_range : InRange complex_type_header h
    pub stands : Holds d r m.device p (save_as_bytes complex_type_header h)
    pub addressable : IsAddressable d r m.device

  module _ (m : State d f c) (p : ℕ) (h : ComplexTypeHeader) (at : ComplexAt m p h) where
    ComplexAt-type : get_entry_type d f c p m ≡ (ok h.value_type, m)
    unfolding save_as_bytes
    ComplexAt-type =
        get_entry_type_lem d r f c h.value_type h.value_state p (2 ∷ 4 ∷ 8 ∷ 8 ∷ 8 ∷ 8 ∷ [])
          (h.expired_time_high ∷ h.expired_time_low ∷ h.overall_size ∷ h.chunk_size
            ∷ h.sequel_offset ∷ h.next_free_entry_offset ∷ [])
          m at.addressable (at.in_range.0, (at.in_range.1.0, tt)) at.stands

    ComplexAt-read : read_header d complex_type_header p m.device ≡ (ok h, m.device)
    ComplexAt-read =
        read_header_lem d r complex_type_header h p m.device at.addressable at.in_range at.stands

    ComplexAt-manager : on_device (read_header d complex_type_header p) m ≡ (ok h, m)
    ComplexAt-manager = on_device_ok (read_header d complex_type_header p) m ComplexAt-read

    abbrev corrupted : Result StorageValue × State d f c
    corrupted = (
      throw (yas "Read complex type error: kComplexBegin type expected" corrupted_header_error),
      m,
    )

    -- An entry whose state has lost its mark of a beginning cannot be read.
    content_without_begin :
        Types.has_state h.value_state Types.complex_begin ≡ false
        → get_entry_content d f c p m ≡ corrupted
    unfolding get_entry_content get_complex_content read_complex_type check_complex_type_header
    content_without_begin lost = elim (complex_kind h.value_type m at.typed) [
      | inl e ↦ rw (ComplexAt-type, e) (rw ComplexAt-manager (rw (ComplexAt-read) (rw lost refl)))
      | inr e ↦ rw (ComplexAt-type, e) (rw ComplexAt-manager (rw (ComplexAt-read) (rw lost refl)))
    ]

    abbrev dated : Time → ComplexTypeHeader
    dated date = record h {
      value_state = Types.is_expired;
      expired_time_high = date.expired_time_high;
      expired_time_low = date.expired_time_low;
    }

    abbrev after_date : Time → State d f c
    after_date date = record m {
      device = write_state p (save_as_bytes complex_type_header (dated date)) m.device;
    }

    set_entry_expired_date-ComplexAt :
        (date : Time) → set_entry_expired_date d f c p date m ≡ (ok tt, after_date date)
    unfolding set_entry_expired_date set_complex_date
    set_entry_expired_date-ComplexAt date =
        let within : p ≤ length (content m.device) = omega (arith, at.stands) in
        let written =
          on_device_ok (write_header d complex_type_header p (dated date)) m
            (write_header_lem d r complex_type_header (dated date) p m.device within) in
        elim (complex_kind h.value_type m at.typed) [
          | inl e ↦ rw (ComplexAt-type, e, ComplexAt-manager) written
          | inr e ↦ rw (ComplexAt-type, e, ComplexAt-manager) written
        ]

    get_entry_expired_date-ComplexAt :
        get_entry_expired_date d f c p m
        ≡ (ok (date_of h.value_state h.expired_time_high h.expired_time_low), m)
    unfolding get_entry_expired_date get_complex_date
    get_entry_expired_date-ComplexAt = elim (complex_kind h.value_type m at.typed) [
      | inl e ↦ rw (ComplexAt-type, e, ComplexAt-manager) refl
      | inr e ↦ rw (ComplexAt-type, e, ComplexAt-manager) refl
    ]

  -- On a reliable device, `SetEntryExpiredDate` of a string or blob with a date of 16 and 32 bits
  -- returns and sets the date, but it overwrites the mark of the value's beginning: then
  -- `GetEntryContent` of the entry throws `kCorruptedHeaderError`, whatever the date is and
  -- whatever the entry holds.
  pub set_entry_expired_date-corrupts :
      (m : State d f c) (p : ℕ) (h : ComplexTypeHeader) (date : Time)
      → ComplexAt m p h
      → date.expired_time_high < 2 ^ 16
      → date.expired_time_low < 2 ^ 32
      → (m' : State d f c) × (set_entry_expired_date d f c p date m ≡ (ok tt, m'))
        × (get_entry_expired_date d f c p m' ≡ (ok (some date), m'))
        × (get_entry_content d f c p m' ≡ (
          throw (yas "Read complex type error: kComplexBegin type expected" corrupted_header_error),
          m',
        ))
  set_entry_expired_date-corrupts m p h date at high low =
      let h' = dated m p h at date in
      let m' = after_date m p h at date in
      let bs = save_as_bytes complex_type_header h' in
      let i' : InRange complex_type_header h' =
        (at.in_range.0, (omega arith, (high, (low, at.in_range.1.1.1.1)))) in
      let size = length-save_as_bytes complex_type_header h at.in_range in
      let size' = length-save_as_bytes complex_type_header h' i' in
      let within : p ≤ length (content m.device) = omega (arith, at.stands) in
      let at' : ComplexAt m' p h' = record {
        typed = at.typed;
        in_range = i';
        stands = Holds-write_self d r p bs m.device within;
        addressable =
            omega (arith, at.stands, at.addressable, length-write_state d r p bs m.device within);
      } in
      (
        m',
        set_entry_expired_date-ComplexAt m p h at date,
        get_entry_expired_date-ComplexAt m' p h' at',
        content_without_begin m' p h' at' refl,
      )
