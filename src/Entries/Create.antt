-- ===== src/Entries/Create.antt =====
-- `CreateNewEntryValue` for a value of a simple type.
use yet_another_storage.Prelude.{
  ℕ, ◌+◌, ◌*◌, ◌≤◌, ◌<◌, ◌^◌, ◌%◌, ◌≡◌, refl, ap, ◌∙◌, length, arith, none,
}
use yet_another_storage.Exec.{ok}
use yet_another_storage.Device.{Device, IsReliable}
use yet_another_storage.Allocator.{DoubleOps}
use yet_another_storage.Bytes.Packed.{save_as_bytes, InRange, byte_bound}
use yet_another_storage.Reader.{write_header}
use yet_another_storage.Reader.Stored.{IsAddressable, write_header_lem}
use yet_another_storage.Layout.{common_type_header}
use yet_another_storage.Entries.{Chance}
use yet_another_storage.Entries.Types.{SimpleType, int8, simple, value_size, header_width}
use yet_another_storage.Entries.Allocate.{State, get_free_entry_offset}
use yet_another_storage.Entries.Operations.{
  create_new_entry_value, simple_header, get_entry_content, get_entry_expired_date,
}
use yet_another_storage.Entries.Standing.{
  SimpleAt-written, get_entry_content-SimpleAt, get_entry_expired_date-SimpleAt, on_device_ok,
}

-- The fields that the source leaves to chance hold some value of their types.
pub record ChanceInRange (c : Chance) : Type 0 where
  pub high : c.header.expired_time_high < 2 ^ 16
  pub low : c.header.expired_time_low < 2 ^ 32

simple_header-low :
    (t : SimpleType) (bits x : ℕ)
    → bits < byte_bound (value_size t)
    → (bits + byte_bound (value_size t) * x) % byte_bound (value_size t) ≡ bits
simple_header-low int8 bits x h = omega arith
simple_header-low _ bits x h = omega arith

module _ (d : Device) (f : DoubleOps) (c : Chance) (range : ChanceInRange c) where
  simple_header-InRange :
      (t : SimpleType) (bits : ℕ)
      → bits < byte_bound (value_size t)
      → InRange (common_type_header (header_width t)) (simple_header d f c t bits)
  unfolding simple_header
  simple_header-InRange int8 bits h = omega (arith, range.high, range.low)
  simple_header-InRange _ bits h = omega (arith, range.high, range.low)

  module _ (r : IsReliable d) where
    open r use {content, write_state}

    -- On a reliable device, where the allocator finds an entry within the volume and all its bytes
    -- have 64-bit offsets, `CreateNewEntryValue` of a simple value returns its offset, and then
    -- the value is the content of the entry, and no expiry date is set. So it is for every value
    -- of the type, and whatever the uninitialised fields hold.
    pub create_new_entry_value_lem :
        (m m₁ : State d f c) (p : ℕ) (t : SimpleType) (bits : ℕ)
        → get_free_entry_offset d f c (8 + header_width t) m ≡ (ok p, m₁)
        → p ≤ length (content m₁.device)
        → IsAddressable d r m₁.device
        → p + (8 + header_width t) < 2 ^ 64
        → bits < byte_bound (value_size t)
        → (m' : State d f c) × (create_new_entry_value d f c (simple t bits) m ≡ (ok p, m'))
          × (get_entry_content d f c p m' ≡ (ok (simple t bits), m'))
          × (get_entry_expired_date d f c p m' ≡ (ok none, m'))
    unfolding create_new_entry_value
    create_new_entry_value_lem m m₁ p t bits found within a room fits =
        let h = simple_header d f c t bits in
        let P = common_type_header (header_width t) in
        let m' = record m₁ { device = write_state p (save_as_bytes P h) m₁.device } in
        let at =
          SimpleAt-written d r f c m₁ p t h (unfold simple_header in refl)
            (simple_header-InRange t bits fits) within a room in
        let e : h.value % byte_bound (value_size t) ≡ bits =
          unfold simple_header in simple_header-low t bits _ fits in
        (
          m',
          rw
              (
                found,
                on_device_ok (write_header d P p h) m₁
                    (write_header_lem d r P h p m₁.device within),
              )
              refl,
          get_entry_content-SimpleAt d r f c m' p t h at ∙ ap (λ v. (ok (simple t v), m')) e,
          unfold simple_header in get_entry_expired_date-SimpleAt d r f c m' p t h at,
        )
