-- ===== src/Entries/Standing.antt =====
-- What the operations of PVEntriesManager.hpp do at an entry that stands on a reliable device.
use yet_another_storage.Prelude.{
  ℕ, ◌+◌, ◌≤◌, ◌<◌, ◌^◌, ◌%◌, ◌≡◌, refl, ap, ◌∙◌, subst, List, [], ◌∷◌, ◌++◌, length, arith, some,
}
use yet_another_storage.Utils.Time.{Time}
use yet_another_storage.Exec.{Exec, ok}
use yet_another_storage.Device.{Device, IsReliable}
use yet_another_storage.Allocator.{DoubleOps}
use yet_another_storage.Bytes.Packed.{
  Packed, Fits, pack, pack-append, save_as_bytes, length-save_as_bytes, InRange, byte_bound,
}
use yet_another_storage.Reader.{read_header, write_header}
use yet_another_storage.Reader.Stored.{
  Holds, IsAddressable, Holds-append, Holds-write_self, read_header_lem, write_header_lem,
  length-write_state,
}
use yet_another_storage.Layout.{CommonTypeHeader, PvState, pv_state, common_type_header}
use yet_another_storage.Layout.Types
use yet_another_storage.Entries.{Manager, Chance, on_device}
use yet_another_storage.Entries.Types.{
  SimpleType, simple, simple_code, value_size, header_width, convert_to_entry_type-simple_code,
  convert_value-simple_code,
}
use yet_another_storage.Entries.Allocate.{State, get_entry_type}
use yet_another_storage.Entries.Operations.{
  get_simple_content, get_entry_content, set_entry_expired_date, set_simple_date,
  get_entry_expired_date, get_simple_date, date_of,
}

pub on_device_ok :
    {Dev Double A : Type 0} (call : Exec Dev A) (m : Manager Dev Double) {a : A} {s : Dev}
    → call m.device ≡ (ok a, s)
    → on_device call m ≡ (ok a, record m { device = s })
on_device_ok call m e = rw e refl

state_bytes :
    (t st : ℕ) (ws vs : List ℕ)
    → Fits (1 ∷ 1 ∷ []) (t ∷ st ∷ [])
    → pack (1 ∷ 1 ∷ ws) (t ∷ st ∷ vs)
      ≡ save_as_bytes pv_state (record { value_type = t; value_state = st }) ++ pack ws vs
unfolding save_as_bytes
state_bytes t st ws vs i = pack-append (1 ∷ 1 ∷ []) ws (t ∷ st ∷ []) vs i

module _ (d : Device) (r : IsReliable d) (f : DoubleOps) (c : Chance) where
  open r use {content, write_state}

  -- The type of an entry is its first byte.
  pub get_entry_type_lem :
      (t st p : ℕ) (ws vs : List ℕ) (m : State d f c)
      → IsAddressable d r m.device
      → Fits (1 ∷ 1 ∷ []) (t ∷ st ∷ [])
      → Holds d r m.device p (pack (1 ∷ 1 ∷ ws) (t ∷ st ∷ vs))
      → get_entry_type d f c p m ≡ (ok t, m)
  unfolding get_entry_type
  get_entry_type_lem t st p ws vs m a i held =
      let h : PvState = record { value_type = t; value_state = st } in
      let start =
        Holds-append d r m.device p (save_as_bytes pv_state h) (pack ws vs)
          (subst (Holds d r m.device p) (state_bytes t st ws vs i) held) in
      rw
        (on_device_ok (read_header d pv_state p) m
          (read_header_lem d r pv_state h p m.device a i start.0))
        refl

  -- A simple entry of the type `t` with the header `h` stands at the offset.
  pub record SimpleAt (m : State d f c) (p : ℕ) (t : SimpleType) (h : CommonTypeHeader)
      : Type 0 where
    pub typed : h.value_type ≡ simple_code t
    pub in_range : InRange (common_type_header (header_width t)) h
    pub stands : Holds d r m.device p (save_as_bytes (common_type_header (header_width t)) h)
    pub addressable : IsAddressable d r m.device

  module _ (m : State d f c) (p : ℕ) (t : SimpleType) (h : CommonTypeHeader)
      (at : SimpleAt m p t h) where
    abbrev P : Packed CommonTypeHeader
    P = common_type_header (header_width t)

    pub SimpleAt-type : get_entry_type d f c p m ≡ (ok (simple_code t), m)
    unfolding save_as_bytes
    SimpleAt-type =
        get_entry_type_lem h.value_type h.value_state p (2 ∷ 4 ∷ header_width t ∷ [])
          (h.expired_time_high ∷ h.expired_time_low ∷ h.value ∷ []) m at.addressable
          (at.in_range.0, (at.in_range.1.0, tt)) at.stands
        ∙ ap (λ v. (ok v, m)) at.typed

    pub SimpleAt-read : on_device (read_header d P p) m ≡ (ok h, m)
    SimpleAt-read =
        on_device_ok (read_header d P p) m
          (read_header_lem d r P h p m.device at.addressable at.in_range at.stands)

    -- `GetEntryContent` of a simple entry returns the low bytes of its value, and changes nothing.
    pub get_entry_content-SimpleAt :
        get_entry_content d f c p m ≡ (ok (simple t (h.value % byte_bound (value_size t))), m)
    unfolding get_entry_content get_simple_content
    get_entry_content-SimpleAt =
        rw (SimpleAt-type, convert_to_entry_type-simple_code t m, SimpleAt-read, at.typed)
          (convert_value-simple_code t h.value m)

    -- `GetEntryExpiredDate` returns the time of the header if its state says that it is set.
    pub get_entry_expired_date-SimpleAt :
        get_entry_expired_date d f c p m
        ≡ (ok (date_of h.value_state h.expired_time_high h.expired_time_low), m)
    unfolding get_entry_expired_date get_simple_date
    get_entry_expired_date-SimpleAt =
        rw (SimpleAt-type, convert_to_entry_type-simple_code t m, SimpleAt-read) refl

    -- The state and the header behind `SetEntryExpiredDate`.
    abbrev pub dated : Time → CommonTypeHeader
    dated date = record h {
      value_state = Types.is_expired;
      expired_time_high = date.expired_time_high;
      expired_time_low = date.expired_time_low;
    }

    abbrev pub after_date : Time → State d f c
    after_date date = record m { device = write_state p (save_as_bytes P (dated date)) m.device }

    pub set_entry_expired_date-SimpleAt :
        (date : Time) → set_entry_expired_date d f c p date m ≡ (ok tt, after_date date)
    unfolding set_entry_expired_date set_simple_date
    set_entry_expired_date-SimpleAt date =
        rw (SimpleAt-type, convert_to_entry_type-simple_code t m, SimpleAt-read)
          (on_device_ok (write_header d P p (dated date)) m
            (write_header_lem d r P (dated date) p m.device (omega (arith, at.stands))))

  -- A header that is written stands at its offset.
  pub SimpleAt-written :
      (m : State d f c) (p : ℕ) (t : SimpleType) (h : CommonTypeHeader)
      → h.value_type ≡ simple_code t
      → InRange (common_type_header (header_width t)) h
      → p ≤ length (content m.device)
      → IsAddressable d r m.device
      → p + (8 + header_width t) < 2 ^ 64
      → SimpleAt
          (record m {
            device = write_state p (save_as_bytes (common_type_header (header_width t)) h) m.device;
          })
          p
          t
          h
  SimpleAt-written m p t h typed i within a room =
      let bs = save_as_bytes (common_type_header (header_width t)) h in
      let size = length-save_as_bytes (common_type_header (header_width t)) h i in
      record {
        typed = typed;
        in_range = i;
        stands = Holds-write_self d r p bs m.device within;
        addressable = omega (arith, length-write_state d r p bs m.device within);
      }

  -- The entry stands with its new header after `SetEntryExpiredDate`.
  pub SimpleAt-dated :
      (m : State d f c) (p : ℕ) (t : SimpleType) (h : CommonTypeHeader) (at : SimpleAt m p t h)
      (date : Time)
      → date.expired_time_high < 2 ^ 16
      → date.expired_time_low < 2 ^ 32
      → SimpleAt (after_date m p t h at date) p t (dated m p t h at date)
  SimpleAt-dated m p t h at date high low =
      let size = length-save_as_bytes (common_type_header (header_width t)) h at.in_range in
      SimpleAt-written m p t (dated m p t h at date) at.typed
        (at.in_range.0, (omega arith, (omega arith, (omega arith, at.in_range.1.1.1.1))))
        (omega (arith, at.stands)) at.addressable (omega (arith, at.stands, at.addressable))

  -- On a reliable device, `SetEntryExpiredDate` of a simple entry with a date of 16 and 32 bits
  -- returns, `GetEntryExpiredDate` returns the date then, and `GetEntryContent` the same content
  -- as before.
  pub set_entry_expired_date_lem :
      (m : State d f c) (p : ℕ) (t : SimpleType) (h : CommonTypeHeader) (date : Time)
      → SimpleAt m p t h
      → date.expired_time_high < 2 ^ 16
      → date.expired_time_low < 2 ^ 32
      → (m' : State d f c) × (set_entry_expired_date d f c p date m ≡ (ok tt, m'))
        × (get_entry_expired_date d f c p m' ≡ (ok (some date), m'))
        × (get_entry_content d f c p m' ≡ (ok (simple t (h.value % byte_bound (value_size t))), m'))
  set_entry_expired_date_lem m p t h date at high low =
      let h' = dated m p t h at date in
      let m' = after_date m p t h at date in
      let at' = SimpleAt-dated m p t h at date high low in
      (
        m',
        set_entry_expired_date-SimpleAt m p t h at date,
        get_entry_expired_date-SimpleAt m' p t h' at',
        get_entry_content-SimpleAt m' p t h' at',
      )
