-- ===== src/Tests/Reopening.antt =====
-- A concrete volume that is closed and loaded.
use yet_another_storage.Prelude.{
  ℕ, ◌≡◌, refl, true, false, some, List, [], ◌∷◌, ◌++◌, replicate, arith,
}
use yet_another_storage.Errors.{yas, invalid_pv_signature_error}
use yet_another_storage.Exec.{ok, throw}
use yet_another_storage.Utils.Version.{version_lt, version_gt}
use yet_another_storage.Trie.{Node, node, end, route, find_route, is_exist_leaf, non_exist_leaf}
use yet_another_storage.Freelist.{
  Bins, new_bins, get_bins, push_free_entry, pop_free_entry_offset, non_exist_offset,
}
use yet_another_storage.Bytes.Packed.{save_as_bytes, load_from_bytes}
use yet_another_storage.Device.TestDevice
use yet_another_storage.Device.{test_device, test_device-IsReliable}
use yet_another_storage.Layout.{ComplexTypeHeader, complex_type_header, default_signature}
use yet_another_storage.Layout.Types
use yet_another_storage.Allocator.{new_allocator}
use yet_another_storage.Reader.{read_header}
use yet_another_storage.Entries.Allocate
use yet_another_storage.Entries.Allocate.{get_free_entry_offset}
use yet_another_storage.Entries.Start.Reload.{IsSavable}
use yet_another_storage.Index.{get}
use yet_another_storage.Index.Serialization.Serialize
use yet_another_storage.Index.Serialization.Ranges.{IsSerializable}
use yet_another_storage.Index.Serialization.Visits.{size}
use yet_another_storage.Index.Saved.{serialize}
use yet_another_storage.Trie
use yet_another_storage.Index
use yet_another_storage.Volume
use yet_another_storage.Volume.{Volume, offset_bits, put, has_key, value, succeeded}
use yet_another_storage.Volume.PutText.{get-put_complex}
use yet_another_storage.Entries.Complex.{characters}
use yet_another_storage.Entries.Types.{string}
use yet_another_storage.Volume.Lifecycle.{
  Uninitialised, new_entries, load, create, delete_saved_index, close,
}
use yet_another_storage.Volume.Room.{HasRoom}
use yet_another_storage.Volume.Reopen.{load-close}
use yet_another_storage.Volume.Unused.{load-close_unused}
use yet_another_storage.Tests.Volumes.{doubles, chance, version_1_0, manager_on, ManagerState}
use yet_another_storage.Tests.Saving.{garbage}

abbrev uninitialised : Uninitialised
uninitialised = record { device_end = 0; leaf = garbage; bad_variant_access = "bad variant access" }

-- Two free entries with room for 140 bytes each, behind the start, linked.
abbrev free_entry : ℕ → ComplexTypeHeader
free_entry next = record {
  value_type = Types.empty_complex;
  value_state = 0;
  expired_time_high = 0;
  expired_time_low = 0;
  overall_size = 140;
  chunk_size = 140;
  sequel_offset = 0;
  next_free_entry_offset = next;
}

abbrev free_bytes : List ℕ
free_bytes =
    replicate 124 0
    ++ (save_as_bytes complex_type_header (free_entry 296)
        ++ (replicate 132 0 ++ save_as_bytes complex_type_header (free_entry 0)))

abbrev bins_with : ℕ → Bins
bins_with offset = (push_free_entry offset 172 new_bins).1

abbrev entries : ManagerState
entries = manager_on free_bytes (bins_with 124)

abbrev one_key : Node
one_key = node (route 97 (node end 16) end) 18446744073709551615

abbrev volume : Volume (List ℕ) ℕ
volume = record {
  index = record { engine = one_key; is_changed = true };
  index_offset = 0;
  entries = entries;
  version = version_1_0;
}

abbrev index_bytes : List ℕ
index_bytes =
    1 ∷ 0 ∷ 0 ∷ 0 ∷ 0 ∷ 0 ∷ 0 ∷ 0 ∷ 2 ∷ 0 ∷ 0 ∷ 0 ∷ 0 ∷ 0 ∷ 0 ∷ 0 ∷ 1 ∷ 0 ∷ 8 ∷ 1 ∷ 0 ∷ 0 ∷ 0 ∷ 0
    ∷ 0 ∷ 0 ∷ 0 ∷ 16 ∷ 0 ∷ 0 ∷ 0 ∷ 0 ∷ 0 ∷ 0 ∷ 0 ∷ 0 ∷ 0 ∷ 0 ∷ 0 ∷ 0 ∷ 0 ∷ 0 ∷ 0 ∷ 0 ∷ 0 ∷ 0 ∷ 0 ∷ 0
    ∷ 0 ∷ 0 ∷ 0 ∷ 0 ∷ 0 ∷ 0 ∷ 0 ∷ 0 ∷ 0 ∷ 0 ∷ 0 ∷ 255 ∷ 255 ∷ 255 ∷ 255 ∷ 255 ∷ 255 ∷ 255 ∷ 255 ∷ 47
    ∷ 1 ∷ 0 ∷ 0 ∷ 0 ∷ 0 ∷ 0 ∷ 0 ∷ 0 ∷ 0 ∷ 0 ∷ 0 ∷ 0 ∷ 0 ∷ 0 ∷ 0 ∷ 0 ∷ 1 ∷ 0 ∷ 0 ∷ 0 ∷ 0 ∷ 0 ∷ 0 ∷ 0
    ∷ 0 ∷ 0 ∷ 0 ∷ 0 ∷ 0 ∷ 0 ∷ 0 ∷ 0 ∷ 97 ∷ []

index_bytes-serialize : serialize version_1_0 volume.index ≡ ok index_bytes
unfolding serialize Serialize.serialize Serialize.serialize_levels Serialize.height
    Serialize.construct_buffer Serialize.save_all save_as_bytes is_exist_leaf
index_bytes-serialize = refl

abbrev found : ManagerState
found = record entries { bins = bins_with 296 }

abbrev taken : ManagerState
taken = record entries { bins = new_bins }

first_found : get_free_entry_offset test_device doubles chance 141 entries ≡ (ok 124, found)
unfolding get_free_entry_offset push_free_entry save_as_bytes new_bins Allocate.get_free_offset
    Allocate.pop_free Allocate.push_free pop_free_entry_offset Allocate.get_entry_type read_header
    TestDevice.read load_from_bytes Allocate.recover_and_push_complex
first_found = refl

second_found : get_free_entry_offset test_device doubles chance 141 found ≡ (ok 296, taken)
unfolding get_free_entry_offset push_free_entry save_as_bytes new_bins Allocate.get_free_offset
    Allocate.pop_free Allocate.push_free pop_free_entry_offset Allocate.get_entry_type read_header
    TestDevice.read load_from_bytes Allocate.recover_and_push_complex
second_found = refl

has_room : HasRoom test_device test_device-IsReliable doubles chance entries 101
unfolding save_as_bytes new_bins get_bins default_signature
has_room = record {
  place = 124;
  next = 296;
  found = found;
  taken = taken;
  header = free_entry 296;
  first = first_found;
  second = second_found;
  behind = omega arith;
  top = omega arith;
  link = omega arith;
  addressable = omega arith;
  in_range = omega arith;
  stands = (omega arith, refl);
  enough = omega arith;
  start = omega arith;
  bins = omega arith;
  limits = record { same = refl };
  clusters = omega arith;
}

one_key-IsSerializable : IsSerializable one_key
unfolding IsSerializable find_route
one_key-IsSerializable = (omega arith, (omega arith, refl, (omega arith, tt), tt))

load-close_example :
    (v' : Volume (List ℕ) ℕ) × (w : Volume (List ℕ) ℕ) × (close test_device doubles chance volume
      ≡ (ok tt, v'))
    × (load test_device doubles chance uninitialised version_1_0 (some v'.entries.device) ≡ ok w)
    × (w.index_offset ≡ v'.index_offset)
    × (w.index.is_changed ≡ false)
    × ((k : List ℕ) → get offset_bits k w.index ≡ get offset_bits k volume.index)
unfolding delete_saved_index size version_lt version_gt has_room
load-close_example =
    load-close test_device test_device-IsReliable doubles chance uninitialised volume index_bytes
      entries version_1_0 has_room refl index_bytes-serialize refl (omega arith)
      one_key-IsSerializable (omega arith) (omega arith) (omega arith) refl refl

created-IsSavable :
    IsSavable test_device test_device-IsReliable doubles chance non_exist_offset
      (new_entries test_device doubles chance uninitialised version_1_0 5 3840 [])
unfolding new_entries new_allocator new_bins get_bins default_signature
created-IsSavable = record {
  header = omega arith;
  bins = omega arith;
  limits = record { same = refl };
  addressable = omega arith;
}

load-close_unused_example :
    (v v' : Volume (List ℕ) ℕ) × (create test_device doubles chance uninitialised version_1_0 5 3840
        false
        (some [])
      ≡ ok v)
    × (close test_device doubles chance v ≡ (ok tt, v'))
    × (load test_device doubles chance uninitialised version_1_0 (some v'.entries.device)
        ≡ throw (yas "PV header parsing: invalid inverted index offset" invalid_pv_signature_error))
unfolding version_gt
load-close_unused_example =
    load-close_unused test_device test_device-IsReliable doubles chance uninitialised version_1_0
      version_1_0 5 3840 [] created-IsSavable refl

abbrev text : List ℕ
text = replicate 101 120

get-put_complex_example :
    (v' : Volume (List ℕ) ℕ) × (put test_device doubles chance true
        (98 ∷ [])
        (some (string text))
        volume
      ≡ (ok succeeded, v'))
    × (Volume.get test_device doubles chance true 0 (98 ∷ []) v' ≡ (ok (value (string text)), v'))
    × (has_key test_device doubles chance true 0 (98 ∷ []) v' ≡ (ok succeeded, v'))
unfolding save_as_bytes Index.has_key Trie.has_key Trie.get_path_node Trie.get_next_node find_route
get-put_complex_example =
    get-put_complex test_device doubles chance true test_device-IsReliable 0 98 [] characters text
      124 296 volume found taken (free_entry 296) refl first_found second_found (omega arith)
      (omega arith) (omega arith) (omega arith) (omega arith) (omega arith, refl) (omega arith)
      (omega arith) (omega arith)
