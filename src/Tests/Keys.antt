-- ===== src/Tests/Keys.antt =====
-- Keys of a concrete volume.
use yet_another_storage.Prelude.{ℕ, ◌≡◌, refl, true, false, some, List, [], ◌∷◌, arith}
use yet_another_storage.Utils.Time.{is_expired}
use yet_another_storage.Errors.{key_not_found, handle, corrupted_header_error}
use yet_another_storage.Exec.{ok}
use yet_another_storage.Trie
use yet_another_storage.Trie.{non_exist_leaf}
use yet_another_storage.Index
use yet_another_storage.Index.{InvertedIndex, new_index}
use yet_another_storage.Freelist.{new_bins}
use yet_another_storage.Bytes.Packed.{save_as_bytes}
use yet_another_storage.Device.{test_device, test_device-IsReliable}
use yet_another_storage.Entries.Types.{int32, simple}
use yet_another_storage.Volume.{
  VolumeState, offset_bits, value, unexpected, failure, succeeded, put, get, has_key, delete,
  set_expired_date,
}
use yet_another_storage.Volume.PutGet.{get-put}
use yet_another_storage.Volume.Removal.{delete-get, set_expired_date-get, set_expired_date-loses}
use yet_another_storage.Tests.Volumes.{
  doubles, chance, chance_in_range, version_1_0, ManagerState, with_free, with_free-finds,
  with_number, with_number-SimpleAt, stored_header, string_header, with_string,
  with_string-ComplexAt,
}

-- Volumes with an empty index, and with the key "/a" for the entry at the offset 16.
abbrev key : List ℕ
key = 47 ∷ 97 ∷ []

abbrev volume_of : InvertedIndex → ManagerState → VolumeState test_device doubles chance true
volume_of index entries = record {
  index = index;
  index_offset = 0;
  entries = entries;
  version = version_1_0;
}

abbrev keyed : InvertedIndex
keyed = (Index.insert offset_bits key 16 (new_index offset_bits)).0

keyed-get : Index.get offset_bits key keyed ≡ 16
unfolding Index.get Index.insert new_index Trie.get Trie.insert
keyed-get = refl

new_index-absent : Index.get offset_bits key (new_index offset_bits) ≡ non_exist_leaf offset_bits
unfolding Index.get new_index Trie.get
new_index-absent = refl

new_index-new : Index.has_key offset_bits key (new_index offset_bits) ≡ false
unfolding Index.has_key new_index Trie.has_key
new_index-new = refl

abbrev empty_volume : VolumeState test_device doubles chance true
empty_volume = volume_of (new_index offset_bits) with_free

get-put_example :
    (v' : VolumeState test_device doubles chance true) × (put test_device doubles chance true key
        (some (simple int32 42))
        empty_volume
      ≡ (ok succeeded, v'))
    × (get test_device doubles chance true 7 key v' ≡ (ok (value (simple int32 42)), v'))
    × (has_key test_device doubles chance true 7 key v' ≡ (ok succeeded, v'))
unfolding save_as_bytes
get-put_example =
    get-put test_device doubles chance true chance_in_range test_device-IsReliable 7 47 (97 ∷ [])
      int32 42 16 empty_volume (record with_free { bins = new_bins }) new_index-new with_free-finds
      (omega arith) (omega arith) (omega arith) (omega arith)

abbrev number_volume : VolumeState test_device doubles chance true
number_volume = volume_of keyed with_number

delete-get_example :
    (v' : VolumeState test_device doubles chance true) × (delete test_device doubles chance true key
        number_volume
      ≡ (ok succeeded, v'))
    × (get test_device doubles chance true 7 key v'
        ≡ (ok (unexpected (failure "Get key: key hasn't been found" key_not_found)), v'))
    × (has_key test_device doubles chance true 7 key v' ≡ (ok (failure "" key_not_found), v'))
delete-get_example =
    delete-get test_device doubles chance true test_device-IsReliable 7 16 key int32 stored_header
      number_volume keyed-get (omega arith) with_number-SimpleAt

set_expired_date-get_example :
    (v' : VolumeState test_device doubles chance true) × (set_expired_date test_device doubles
        chance true key 1000 number_volume
      ≡ (ok succeeded, v'))
    × ((get test_device doubles chance true 1001 key v').0
        ≡ ok (unexpected (failure "Get key: key hasn't been found" key_not_found)))
unfolding is_expired
set_expired_date-get_example =
    set_expired_date-get test_device doubles chance true test_device-IsReliable 1001 1000 16 key
      int32 stored_header number_volume keyed-get (omega arith) with_number-SimpleAt

abbrev string_volume : VolumeState test_device doubles chance true
string_volume = volume_of keyed with_string

set_expired_date-loses_example :
    (v' : VolumeState test_device doubles chance true) × (set_expired_date test_device doubles
        chance true key 1000 string_volume
      ≡ (ok succeeded, v'))
    × (get test_device doubles chance true 999 key v' ≡ (
      ok (
          unexpected (
            failure "Read complex type error: kComplexBegin type expected" corrupted_header_error)),
      v',
    ))
unfolding handle
set_expired_date-loses_example =
    set_expired_date-loses test_device doubles chance true test_device-IsReliable 999 1000 16 key
      string_header string_volume keyed-get (omega arith) with_string-ComplexAt
      (unfold is_expired in refl)
