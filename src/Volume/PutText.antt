-- ===== src/Volume/PutText.antt =====
-- What `Put` stores of a string or a blob.
use yet_another_storage.Prelude.{
  ℕ, ◌+◌, ◌-◌, ◌≤◌, ◌<◌, ◌^◌, ◌≡◌, refl, Bool, false, some, List, ◌∷◌, length, arith,
}
use yet_another_storage.Exec.{ok}
use yet_another_storage.Index
use yet_another_storage.Device.{Device, IsReliable}
use yet_another_storage.Allocator.{DoubleOps}
use yet_another_storage.Bytes.Packed.{save_as_bytes, InRange}
use yet_another_storage.Reader.{maximum_type_size}
use yet_another_storage.Reader.Stored.{Holds, IsAddressable}
use yet_another_storage.Layout.{ComplexTypeHeader, complex_type_header}
use yet_another_storage.Entries.{Chance}
use yet_another_storage.Entries.Allocate.{State, get_free_entry_offset}
use yet_another_storage.Entries.Operations
use yet_another_storage.Entries.Complex.{
  ComplexType, complex_value, create_new_entry_value-ValueAt, get_entry_content-ValueAt,
  get_entry_expired_date-ValueAt,
}
use yet_another_storage.Volume.{
  VolumeState, offset_bits, value, succeeded, is_entry_expired, put, get, has_key, index_get,
  index_insert,
}
use yet_another_storage.Volume.PutGet.{on_entries_ok, get-insert_self, is_exist_leaf_of_lt}

module _ (d : Device) (f : DoubleOps) (c : Chance) (copies : Bool) (r : IsReliable d) where
  -- On a reliable device with 64-bit offsets, `Put` of a string or blob that is not empty and has at
  -- most the size of a cluster and of the greatest value, under a new key that is not empty,
  -- where the allocator finds a free entry with room for all of it and another one after it,
  -- succeeds; then `Get` returns the value and `HasKey` succeeds at every clock reading.
  pub get-put_complex :
      (now ch : ℕ) (key : List ℕ) (t : ComplexType) (bs : List ℕ) (p q : ℕ)
      (v : VolumeState d f c copies) (m₁ m₂ : State d f c) (h : ComplexTypeHeader)
      → Index.has_key offset_bits (ch ∷ key) v.index ≡ false
      → get_free_entry_offset d f c (length bs + 40) v.entries ≡ (ok p, m₁)
      → get_free_entry_offset d f c (length bs - 0 + 40) m₁ ≡ (ok q, m₂)
      → 0 < length bs
      → p + 40 + length bs < 2 ^ 64
      → q < 2 ^ 64
      → IsAddressable d r m₂.device
      → InRange complex_type_header h
      → Holds d r m₂.device p (save_as_bytes complex_type_header h)
      → length bs ≤ h.chunk_size
      → length bs ≤ m₂.reader_cluster_size
      → length bs ≤ maximum_type_size
      → (v' : VolumeState d f c copies) × (put d f c copies (ch ∷ key) (some (complex_value t bs)) v
          ≡ (ok succeeded, v'))
        × (get d f c copies now (ch ∷ key) v' ≡ (ok (value (complex_value t bs)), v'))
        × (has_key d f c copies now (ch ∷ key) v' ≡ (ok succeeded, v'))
  unfolding put get has_key index_get index_insert is_entry_expired
  get-put_complex now ch key t bs p q v m₁ m₂ h new first second some_bytes top room a i held chunk
        fits small =
      let (s, created, at) =
        create_new_entry_value-ValueAt d r f c v.entries m₁ m₂ p q t bs h first second some_bytes
          top room a i held chunk fits small in
      let m' : State d f c = record m₂ { device = s } in
      let v₁ = record v { entries = m' } in
      let v' = record v₁ { index = (Index.insert offset_bits (ch ∷ key) p v.index).0 } in
      let found : Index.get offset_bits (ch ∷ key) v'.index ≡ p =
        get-insert_self ch key p v.index in
      let there = is_exist_leaf_of_lt p (omega arith) in
      let content = get_entry_content-ValueAt d r f c m' p t bs at in
      let date = get_entry_expired_date-ValueAt d r f c m' p t bs at in
      let dated = on_entries_ok (Operations.get_entry_expired_date d f c p) v' date in
      (
        v',
        rw new (
            rw
              (on_entries_ok (Operations.create_new_entry_value d f c (complex_value t bs)) v
                created)
              refl),
        rw found (
            rw there (
              rw dated
                (rw (on_entries_ok (Operations.get_entry_content d f c p) v' content) refl))),
        rw found (rw there (rw dated refl)),
      )
