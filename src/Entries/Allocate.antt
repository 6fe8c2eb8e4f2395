-- ===== src/Entries/Allocate.antt =====
-- The allocation of entries in PVEntriesManager.hpp: `getFreeOffset`, `splitEntries`,
-- `recoverAndPushNextEntry` and `getFreeEntryOffset`.
use yet_another_storage.Prelude.{
  ℕ, ◌+◌, ◌-◌, ◌%◌, ◌^◌, Bool, true, false, not, ◌&&◌, ltb, leb, ◌==◌, if◌then◌else◌,
}
use yet_another_storage.Errors.{yas, device_expand_error}
use yet_another_storage.Exec.{Exec, ok, pure, raise, gets, ◌>>=◌, ◌>>◌, and_then}
use yet_another_storage.Device.{Device}
use yet_another_storage.Allocator.{DoubleOps, expand_pv}
use yet_another_storage.Reader.{read_header, write_header}
use yet_another_storage.Freelist.{
  is_exist_offset, non_exist_offset, pop_free_entry_offset, push_free_entry, get_free_entry,
}
use yet_another_storage.Layout.{
  pv_state, common_type_header, complex_type_header, next_free_entry_offset,
  set_next_free_entry_offset, data_offset,
}
use yet_another_storage.Layout.Types
use yet_another_storage.Entries.{Manager, Chance, on_device}

-- The sum of two offsets.
abbrev pub add_offset : ℕ → ℕ → ℕ
add_offset a b = (a + b) % 2 ^ 64

module _ {Dev Double : Type 0} where
  -- The calls of `freelist_helper_`.
  unfoldable pub pop_free : ℕ → Exec (Manager Dev Double) ℕ
  pop_free entry_size m =
      let popped = pop_free_entry_offset entry_size m.bins in
      (ok popped.0, record m { bins = popped.1 })

  unfoldable pub push_free : ℕ → ℕ → Exec (Manager Dev Double) (Unit {0})
  push_free offset entry_size m =
      (ok tt, record m { bins = (push_free_entry offset entry_size m.bins).1 })

module _ (d : Device) (f : DoubleOps) (c : Chance) where
  abbrev pub State : Type 0
  State = Manager d.Dev f.Double

  -- `getEntryType`
  unfoldable pub get_entry_type : ℕ → Exec State ℕ
  get_entry_type offset = do
    state ← on_device (read_header d pv_state offset)
    pure state.value_type

  -- `entries_allocator_.ExpandPV`
  unfoldable pub expand : ℕ → Exec State ℕ
  expand free_entry_offset m =
      and_then (on_device (expand_pv d f c.header.value_state free_entry_offset m.allocator) m)
        (λ r m'. (ok r.0, record m' { allocator = r.1 }))

  -- `getFreeOffset`
  unfoldable pub get_free_offset : ℕ → Exec State ℕ
  get_free_offset entry_size = do
    offset ← pop_free entry_size
    if is_exist_offset offset then pure offset else do
      cluster_size ← gets (λ m. m.cluster_size)
      head ← gets (λ m. get_free_entry cluster_size m.bins)
      free_entry_offset ← expand head
      push_free free_entry_offset cluster_size
      offset' ← pop_free entry_size
      if is_exist_offset offset'
          then pure offset'
          else raise (yas "Error during physical volume size extended" device_expand_error)

  -- A free simple entry of `splitEntries`, in a header of which the other fields are not set.
  unfoldable pub split_simple : ℕ → ℕ → ℕ → ℕ → Exec State (Unit {0})
  split_simple width free_type split_offset split_size = do
    next ← gets (λ m. get_free_entry split_size m.bins)
    on_device (
        write_header d (common_type_header width) split_offset
          (record (set_next_free_entry_offset next c.header) { value_type = free_type }))
    push_free split_offset split_size

  -- `splitEntries`
  unfoldable pub split_entries : ℕ → ℕ → Exec State (Unit {0})
  split_entries split_offset split_size =
      if ltb 40 split_size
      then (do
        next ← gets (λ m. get_free_entry split_size m.bins)
        on_device (
            write_header d complex_type_header split_offset (record {
              value_type = Types.empty_complex;
              value_state = c.header.value_state;
              expired_time_high = 0;
              expired_time_low = 0;
              overall_size = split_size;
              chunk_size = split_size;
              sequel_offset = non_exist_offset;
              next_free_entry_offset = next;
            }))
        push_free split_offset split_size)
      else if leb 12 split_size && ltb split_size 16
      then split_simple 4 Types.empty4_simple split_offset split_size
      else if leb 16 split_size
      then split_simple 8 Types.empty8_simple split_offset split_size
      else pure tt

  -- `recoverAndPushNextEntry` for a simple header
  unfoldable pub recover_and_push_simple : ℕ → ℕ → Exec State Bool
  recover_and_push_simple width offset = do
    header ← on_device (read_header d (common_type_header width) offset)
    if not (is_exist_offset (next_free_entry_offset header))
        then pure false
        else do push_free (next_free_entry_offset header) (8 + width); pure true

  -- `recoverAndPushNextEntry<ComplexTypeHeader>`
  unfoldable pub recover_and_push_complex : ℕ → Exec State Bool
  recover_and_push_complex offset = do
    header ← on_device (read_header d complex_type_header offset)
    if not (is_exist_offset header.next_free_entry_offset) then pure false else do
      next ← on_device (read_header d complex_type_header header.next_free_entry_offset)
      push_free header.next_free_entry_offset (add_offset next.overall_size data_offset)
      pure true

  -- `getFreeEntryOffset`
  unfoldable pub get_free_entry_offset : ℕ → Exec State ℕ
  get_free_entry_offset entry_size = do
    offset ← get_free_offset entry_size
    free_type ← get_entry_type offset
    if free_type == Types.empty4_simple
        then (do _ ← recover_and_push_simple 4 offset; pure offset)
        else if free_type == Types.empty8_simple
        then (do _ ← recover_and_push_simple 8 offset; pure offset)
        else if free_type == Types.empty_complex
        then (do
          header ← on_device (read_header d complex_type_header offset)
          _ ← recover_and_push_complex offset
          if ltb header.overall_size entry_size then pure offset else do
            split_entries (add_offset offset entry_size) (header.overall_size - entry_size)
            pure offset)
        else (do split_entries (add_offset offset entry_size) 0; pure offset)
