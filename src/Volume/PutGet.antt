-- ===== src/Volume/PutGet.antt =====
-- What `Put` stores, and what the operations find under a key.
use yet_another_storage.Prelude.{
  ℕ, ◌+◌, ◌≤◌, ◌<◌, ◌^◌, ◌-◌, ◌≡◌, refl, ◌∙◌, Bool, true, false, some, List, [], ◌∷◌, length, arith,
}
use yet_another_storage.Errors.{key_not_found}
use yet_another_storage.Exec.{Exec, ok}
use yet_another_storage.Trie.{is_exist_leaf, non_exist_leaf}
use yet_another_storage.Trie.Lookup
use yet_another_storage.Trie.Lookup.{key_eq_iff}
use yet_another_storage.Index
use yet_another_storage.Index.{InvertedIndex}
use yet_another_storage.Device.{Device, IsReliable}
use yet_another_storage.Allocator.{DoubleOps}
use yet_another_storage.Bytes.Packed.{byte_bound}
use yet_another_storage.Reader.Stored.{IsAddressable}
use yet_another_storage.Entries.{Manager, Chance}
use yet_another_storage.Entries.Types.{SimpleType, simple, header_width, value_size}
use yet_another_storage.Entries.Allocate.{State, get_free_entry_offset}
use yet_another_storage.Entries.Operations
use yet_another_storage.Entries.Create.{ChanceInRange, create_new_entry_value_lem}
use yet_another_storage.Volume.{
  Volume, VolumeState, on_entries, offset_bits, value, unexpected, failure, succeeded,
  is_entry_expired, put, get, has_key, delete, set_expired_date, get_expired_date, index_get,
  index_insert,
}

pub on_entries_ok :
    {Dev Double A : Type 0} (call : Exec (Manager Dev Double) A) (v : Volume Dev Double) {a : A}
    {m : Manager Dev Double}
    → call v.entries ≡ (ok a, m)
    → on_entries call v ≡ (ok a, record v { entries = m })
on_entries_ok call v e = rw e refl

pub get-insert_self :
    (c : ℕ) (k : List ℕ) (l : ℕ) (x : InvertedIndex)
    → Index.get offset_bits (c ∷ k) (Index.insert offset_bits (c ∷ k) l x).0 ≡ l
unfolding Index.get Index.insert
get-insert_self c k l x =
    Lookup.get-insert offset_bits (c ∷ k) (c ∷ k) l x.engine
    ∙ rw ((key_eq_iff (c ∷ k) (c ∷ k)).1 refl) refl

pub get-delete_self :
    (k : List ℕ) (x : InvertedIndex)
    → Index.get offset_bits k (Index.delete offset_bits k x).0 ≡ non_exist_leaf offset_bits
unfolding Index.get Index.delete
get-delete_self [] x = refl
get-delete_self (c ∷ k) x =
    Lookup.get-delete offset_bits (c ∷ k) (c ∷ k) x.engine
    ∙ rw ((key_eq_iff (c ∷ k) (c ∷ k)).1 refl) refl

pub is_exist_leaf_of_lt : (p : ℕ) → p < 2 ^ 64 - 1 → is_exist_leaf offset_bits p ≡ true
unfolding is_exist_leaf non_exist_leaf
is_exist_leaf_of_lt p h = ground arith

pub is_exist_leaf_none : is_exist_leaf offset_bits (non_exist_leaf offset_bits) ≡ false
unfolding is_exist_leaf non_exist_leaf
is_exist_leaf_none = refl

module _ (d : Device) (f : DoubleOps) (c : Chance) (copies : Bool) where
  -- Under a key that the index does not hold, every operation but `Put` reports `kKeyNotFound`, and
  -- leaves the volume as it is.
  pub absent_key :
      (now expired : ℕ) (key : List ℕ) (v : VolumeState d f c copies)
      → Index.get offset_bits key v.index ≡ non_exist_leaf offset_bits
      → (get d f c copies now key v
          ≡ (ok (unexpected (failure "Get key: key hasn't been found" key_not_found)), v))
        × (has_key d f c copies now key v ≡ (ok (failure "" key_not_found), v))
        × (delete d f c copies key v
            ≡ (ok (failure "Delete key: the key hasn't been found" key_not_found), v))
        × (set_expired_date d f c copies key expired v
            ≡ (ok (failure "SetExpiredDate key: key hasn't been found" key_not_found), v))
        × (get_expired_date d f c copies key v ≡ (
          ok (unexpected (failure "GetExpiredDate key: key hasn't been found" key_not_found)),
          v,
        ))
  unfolding get has_key delete set_expired_date get_expired_date index_get
  absent_key now expired key v e =
      let gone = is_exist_leaf_none in
      (
        rw e (rw gone refl),
        rw e (rw gone refl),
        rw e (rw gone refl),
        rw e (rw gone refl),
        rw e (rw gone refl),
      )

  module _ (range : ChanceInRange c) (r : IsReliable d) where
    open r use {content}

    -- On a reliable device, `Put` of a value of a simple type (no string or blob), in its range, under a
    -- new key that is not empty, where the allocator finds an entry within the volume and all its
    -- bytes have 64-bit offsets, succeeds; then `Get` returns the value and `HasKey` succeeds at
    -- every clock reading.
    pub get-put :
        (now ch : ℕ) (key : List ℕ) (t : SimpleType) (bits p : ℕ) (v : VolumeState d f c copies)
        (m : State d f c)
        → Index.has_key offset_bits (ch ∷ key) v.index ≡ false
        → get_free_entry_offset d f c (8 + header_width t) v.entries ≡ (ok p, m)
        → p ≤ length (content m.device)
        → IsAddressable d r m.device
        → p + (8 + header_width t) < 2 ^ 64
        → bits < byte_bound (value_size t)
        → (v' : VolumeState d f c copies) × (put d f c copies (ch ∷ key) (some (simple t bits)) v
            ≡ (ok succeeded, v'))
          × (get d f c copies now (ch ∷ key) v' ≡ (ok (value (simple t bits)), v'))
          × (has_key d f c copies now (ch ∷ key) v' ≡ (ok succeeded, v'))
    unfolding put get has_key index_get index_insert is_entry_expired
    get-put now ch key t bits p v m new found within a room fits =
        let (m', created, content, date) =
          create_new_entry_value_lem d f c range r v.entries m p t bits found within a room fits in
        let v₁ = record v { entries = m' } in
        let v' = record v₁ { index = (Index.insert offset_bits (ch ∷ key) p v.index).0 } in
        let at : Index.get offset_bits (ch ∷ key) v'.index ≡ p = get-insert_self ch key p v.index in
        let there = is_exist_leaf_of_lt p (omega arith) in
        (
          v',
          rw new (
              rw (on_entries_ok (Operations.create_new_entry_value d f c (simple t bits)) v created)
                refl),
          rw at (
              rw there (
                rw (on_entries_ok (Operations.get_entry_expired_date d f c p) v' date)
                  (rw (on_entries_ok (Operations.get_entry_content d f c p) v' content) refl))),
          rw at (
              rw there
                (rw (on_entries_ok (Operations.get_entry_expired_date d f c p) v' date) refl)),
        )
