-- ===== src/Volume/Removal.antt =====
-- `Delete` and `SetExpiredDate` in PVManager.hpp, with what `Get` and `HasKey` return afterwards.
use yet_another_storage.Prelude.{
  ℕ, ◌-◌, ◌<◌, ◌^◌, ◌%◌, ◌≡◌, refl, Bool, false, List, Bool-cases, inl, inr, if◌then◌else◌,
}
use yet_another_storage.Errors.{key_not_found, corrupted_header_error, yas, Exception, handle}
use yet_another_storage.Exec.{Exec, ok, throw}
use yet_another_storage.Utils.Time.{of_time_t, is_expired, of_time_t-InRange}
use yet_another_storage.Index
use yet_another_storage.Device.{Device, IsReliable}
use yet_another_storage.Allocator.{DoubleOps}
use yet_another_storage.Bytes.Packed.{byte_bound}
use yet_another_storage.Layout.{CommonTypeHeader, ComplexTypeHeader}
use yet_another_storage.Entries.{Manager, Chance}
use yet_another_storage.Entries.Types.{SimpleType, simple, header_width, value_size}
use yet_another_storage.Entries.Operations
use yet_another_storage.Entries.Standing.{
  SimpleAt, SimpleAt-dated, after_date, dated, set_entry_expired_date-SimpleAt,
  get_entry_content-SimpleAt, get_entry_expired_date-SimpleAt,
}
use yet_another_storage.Entries.Delete.{delete_entry-SimpleAt, after_delete}
use yet_another_storage.Entries.Expiry.{ComplexAt, set_entry_expired_date-corrupts}
use yet_another_storage.Volume.{
  Volume, on_entries, VolumeState, offset_bits, value, unexpected, failure, succeeded,
  is_entry_expired, remove_entry, get, has_key, delete, set_expired_date, index_get, index_delete,
}
use yet_another_storage.Volume.PutGet.{
  on_entries_ok, get-delete_self, is_exist_leaf_of_lt, absent_key,
}

on_entries_throw :
    {Dev Double A : Type 0} (call : Exec (Manager Dev Double) A) (v : Volume Dev Double)
    {e : Exception} {m : Manager Dev Double}
    → call v.entries ≡ (throw e, m)
    → on_entries call v ≡ (throw e, record v { entries = m })
on_entries_throw call v e = rw e refl

-- What the read of an entry of which the beginning is not marked throws.
abbrev lost : Exception
lost = yas "Read complex type error: kComplexBegin type expected" corrupted_header_error

module _ (d : Device) (f : DoubleOps) (c : Chance) (copies : Bool) (r : IsReliable d) where
  -- On a reliable device, `Delete` of a key of a simple entry (no string or blob) succeeds, and then
  -- neither `Get` nor `HasKey` finds the key at any clock reading.
  pub delete-get :
      (now p : ℕ) (key : List ℕ) (t : SimpleType) (h : CommonTypeHeader)
      (v : VolumeState d f c copies)
      → Index.get offset_bits key v.index ≡ p
      → p < 2 ^ 64 - 1
      → SimpleAt d r f c v.entries p t h
      → (v' : VolumeState d f c copies) × (delete d f c copies key v ≡ (ok succeeded, v'))
        × (get d f c copies now key v'
            ≡ (ok (unexpected (failure "Get key: key hasn't been found" key_not_found)), v'))
        × (has_key d f c copies now key v' ≡ (ok (failure "" key_not_found), v'))
  unfolding delete index_get remove_entry index_delete
  delete-get now p key t h v found small at =
      let m' = after_delete d r f c v.entries p (header_width t) h in
      let v₁ = record v { entries = m' } in
      let v' = record v₁ { index = (Index.delete offset_bits key v.index).0 } in
      let gone = absent_key d f c copies now now key v' (get-delete_self key v.index) in
      (
        v',
        rw (found, is_exist_leaf_of_lt p small)
            (rw
              (on_entries_ok (Operations.delete_entry d f c p) v
                (delete_entry-SimpleAt d r f c v.entries p t h at))
              refl),
        gone.0,
        gone.1,
      )

  -- On a reliable device, `SetExpiredDate` of a key of a simple entry (no string or blob) succeeds.
  -- `Get` at the clock reading `now` then returns the content of the entry as it was, unless the date lies before
  -- `now`: then it does not find the key.
  pub set_expired_date-get :
      (now expired p : ℕ) (key : List ℕ) (t : SimpleType) (h : CommonTypeHeader)
      (v : VolumeState d f c copies)
      → Index.get offset_bits key v.index ≡ p
      → p < 2 ^ 64 - 1
      → SimpleAt d r f c v.entries p t h
      → (v' : VolumeState d f c copies) × (set_expired_date d f c copies key expired v
          ≡ (ok succeeded, v'))
        × ((get d f c copies now key v').0 ≡ (
            if is_expired (of_time_t expired) now
            then ok (unexpected (failure "Get key: key hasn't been found" key_not_found))
            else ok (value (simple t (h.value % byte_bound (value_size t))))))
  unfolding set_expired_date get index_get is_entry_expired remove_entry index_delete
  set_expired_date-get now expired p key t h v found small at =
      let date = of_time_t expired in
      let h' = dated d r f c v.entries p t h at date in
      let m' = after_date d r f c v.entries p t h at date in
      let range = of_time_t-InRange expired in
      let at' = SimpleAt-dated d r f c v.entries p t h at date range.0 range.1 in
      let v' = record v { entries = m' } in
      let known =
        on_entries_ok (Operations.get_entry_expired_date d f c p) v'
          (get_entry_expired_date-SimpleAt d r f c m' p t h' at') in
      let content =
        on_entries_ok (Operations.get_entry_content d f c p) v'
          (get_entry_content-SimpleAt d r f c m' p t h' at') in
      let deleted =
        on_entries_ok (Operations.delete_entry d f c p) v'
          (delete_entry-SimpleAt d r f c m' p t h' at') in
      (
        v',
        rw (found, is_exist_leaf_of_lt p small)
            (rw
              (on_entries_ok (Operations.set_entry_expired_date d f c p date) v
                (set_entry_expired_date-SimpleAt d r f c v.entries p t h at date))
              refl),
        rw (found, is_exist_leaf_of_lt p small)
            (rw known (elim (Bool-cases (is_expired date now)) [
              | inl e ↦ rw e (rw deleted refl)
              | inr e ↦ rw e (rw content refl)
            ])),
      )

  -- On a reliable device, `SetExpiredDate` of a key of a string or blob succeeds, but at every
  -- clock reading at which the date has not passed, `Get` then reports the error of a
  -- `kCorruptedHeaderError`, whatever the entry holds.
  pub set_expired_date-loses :
      (now expired p : ℕ) (key : List ℕ) (h : ComplexTypeHeader) (v : VolumeState d f c copies)
      → Index.get offset_bits key v.index ≡ p
      → p < 2 ^ 64 - 1
      → ComplexAt d r f c v.entries p h
      → is_expired (of_time_t expired) now ≡ false
      → (v' : VolumeState d f c copies) × (set_expired_date d f c copies key expired v
          ≡ (ok succeeded, v'))
        × (get d f c copies now key v' ≡ (ok (unexpected (handle copies lost)), v'))
  unfolding set_expired_date get index_get is_entry_expired
  set_expired_date-loses now expired p key h v found small at alive =
      let date = of_time_t expired in
      let range = of_time_t-InRange expired in
      let (m', set, known, content) =
        set_entry_expired_date-corrupts d r f c v.entries p h date at range.0 range.1 in
      let v' = record v { entries = m' } in
      (
        v',
        rw (found, is_exist_leaf_of_lt p small)
            (rw (on_entries_ok (Operations.set_entry_expired_date d f c p date) v set) refl),
        rw (found, is_exist_leaf_of_lt p small)
            (rw (on_entries_ok (Operations.get_entry_expired_date d f c p) v' known) (
              rw alive
                (rw (on_entries_throw (Operations.get_entry_content d f c p) v' content) refl))),
      )
