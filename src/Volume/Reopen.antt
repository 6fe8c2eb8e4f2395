-- ===== src/Volume/Reopen.antt =====
-- What `Load` makes of a volume that `close` has saved.
use yet_another_storage.Prelude.{
  ℕ, ◌-◌, ◌≤◌, ◌<◌, ◌^◌, ◌≡◌, ◌≢◌, refl, ap, ◌∙◌, true, false, some, List, length, arith,
  if◌then◌else◌,
}
use yet_another_storage.Utils.Version.{version_lt, version_gt}
use yet_another_storage.Exec.{ok, pure}
use yet_another_storage.Device.{Device, IsReliable}
use yet_another_storage.Allocator.{DoubleOps}
use yet_another_storage.Entries.{Chance}
use yet_another_storage.Entries.Allocate.{State}
use yet_another_storage.Entries.Operations
use yet_another_storage.Entries.Operations.{get_entry_content}
use yet_another_storage.Entries.Complex.{ValueAt, bytes, get_entry_content-ValueAt}
use yet_another_storage.Entries.Start.{save_start_entries, load_start_entries, start_size}
use yet_another_storage.Entries.Start.Reload.{
  IsSavable, saved, save_start_entries-saved, load_start_entries-saved,
}
use yet_another_storage.Entries.Types.{blob}
use yet_another_storage.Utils.Version.{Version}
use yet_another_storage.Freelist.{non_exist_offset, default_cluster_size}
use yet_another_storage.Index.{InvertedIndex, get}
use yet_another_storage.Index.Saved.{serialize, deserialize, deserialize-serialize_get}
use yet_another_storage.Index.Serialization.Size.{serialize-returns}
use yet_another_storage.Volume.{Volume, offset_bits}
use yet_another_storage.Index.Serialization.Visits.{size}
use yet_another_storage.Index.Serialization.Ranges.{IsSerializable}
use yet_another_storage.Volume.PutGet.{on_entries_ok}
use yet_another_storage.Volume.Lifecycle.{
  Uninitialised, new_entries, load_content, load_index, load, serialized_index, delete_saved_index,
  save_index, save_if_changed, close_body, close,
}
use yet_another_storage.Volume.Room.{HasRoom, ValueAt-saved, HasRoom-created, HasRoom-IsSavable}

module _ (d : Device) (r : IsReliable d) (f : DoubleOps) (c : Chance) where
  open r use {content, write_state}

  -- `close` of a changed index, entry by entry.
  save_index-changed :
      (v : Volume d.Dev f.Double) (bs : List ℕ) (m m' : State d f c) (p : ℕ)
      → serialize v.version v.index ≡ ok bs
      → delete_saved_index d f c v ≡ (ok tt, record v { entries = m })
      → Operations.create_new_entry_value d f c (blob bs) m ≡ (ok p, m')
      → save_index d f c v ≡ (ok tt, record v { entries = m'; index_offset = p })
  unfolding save_index serialized_index
  save_index-changed v bs m m' p serialized deleted made =
      rw (serialized, deleted)
        (rw
          (on_entries_ok (Operations.create_new_entry_value d f c (blob bs))
            (record v { entries = m }) made)
          refl)

  pub close_body-saved :
      (v v' : Volume d.Dev f.Double)
      → save_if_changed d f c v ≡ (ok tt, v')
      → IsSavable d r f c v'.index_offset v'.entries
      → close d f c v ≡ (ok tt, record v' { entries = saved d r f c v'.index_offset v'.entries })
  unfolding close close_body
  close_body-saved v v' first w = rw first (
      rw
        (on_entries_ok (save_start_entries d f c v'.index_offset) v'
          (save_start_entries-saved d r f c v'.index_offset v'.entries w))
        refl)

  close-changed :
      (v : Volume d.Dev f.Double) (bs : List ℕ) (m m' : State d f c) (p : ℕ)
      → v.index.is_changed ≡ true
      → serialize v.version v.index ≡ ok bs
      → delete_saved_index d f c v ≡ (ok tt, record v { entries = m })
      → Operations.create_new_entry_value d f c (blob bs) m ≡ (ok p, m')
      → IsSavable d r f c p m'
      → close d f c v ≡ (ok tt, record v { entries = saved d r f c p m'; index_offset = p })
  unfolding save_if_changed
  close-changed v bs m m' p changed serialized deleted made w =
      close_body-saved v (record v { entries = m'; index_offset = p })
        (ap (λ b. (if b then save_index d f c else pure tt) v) changed
          ∙ save_index-changed v bs m m' p serialized deleted made)
        w

  -- `Load` of a device on which the index stands as a blob.
  load-saved :
      (u : Uninitialised) (m : State d f c) (p : ℕ) (bs : List ℕ) (supported : Version)
      → IsSavable d r f c p m
      → p ≢ non_exist_offset
      → version_gt m.version supported ≡ false
      → start_size ≤ p
      → length bs ≤ default_cluster_size
      → ValueAt d r f c m p bytes bs
      → (n : State d f c) × (load d f c u supported (some (saved d r f c p m).device)
          ≡ load_index d f c u supported (ok (p, blob bs), n))
  unfolding load load_content
  load-saved u m p bs supported w exists version behind fits at =
      let opened =
        new_entries d f c u supported 0 default_cluster_size (saved d r f c p m).device in
      let n : State d f c = record opened {
        bins = m.bins;
        cluster_size = m.cluster_size;
        priority = m.priority;
        allocator = record opened.allocator { device_end = m.allocator.device_end };
      } in
      let supports : version_gt m.version opened.version ≡ false = unfold new_entries in version in
      let started : load_start_entries d f c opened ≡ (ok p, n) =
        unfold new_entries in
        (load_start_entries-saved d r f c p m opened w exists ∙ rw version refl) in
      let read : get_entry_content d f c p n ≡ (ok (blob bs), n) =
        get_entry_content-ValueAt d r f c n p bytes bs
          (unfold new_entries in ValueAt-saved d r f c m n p p bytes bs behind w fits at) in
      (n, rw (started, read) refl)

  load_index-read :
      (u : Uninitialised) (version : Version) (p : ℕ) (bs : List ℕ) (y : InvertedIndex)
      (n : State d f c)
      → deserialize u.leaf bs version ≡ ok y
      → load_index d f c u version (ok (p, blob bs), n)
        ≡ ok (record { index = y; index_offset = p; entries = n; version = version })
  unfolding load_index
  load_index-read u version p bs y n e = rw (e, load_index) refl

  -- On a reliable device, where the index of a volume can be saved and has changed, the entry of
  -- the index that was saved before can be deleted, and a free entry behind the start of the volume
  -- has room for the serialized index, which has at most the size of a cluster: `close` returns,
  -- and `Load` of the device that it leaves, by a version that supports the volume's, returns a
  -- volume whose index gives the same offset for every key, and is not changed.
  pub load-close :
      (u : Uninitialised) (v : Volume d.Dev f.Double) (bs : List ℕ) (m : State d f c)
      (supported : Version) (h : HasRoom d r f c m (length bs))
      → v.index.is_changed ≡ true
      → serialize v.version v.index ≡ ok bs
      → delete_saved_index d f c v ≡ (ok tt, record v { entries = m })
      → length bs ≤ default_cluster_size
      → IsSerializable v.index.engine
      → size v.index.engine < 2 ^ 64 - 1
      → v.version.major < 2 ^ 8
      → v.version.minor < 2 ^ 8
      → version_lt supported v.version ≡ false
      → version_gt h.taken.version supported ≡ false
      → (v' : Volume d.Dev f.Double) × (w : Volume d.Dev f.Double) × (close d f c v ≡ (ok tt, v'))
        × (load d f c u supported (some v'.entries.device) ≡ ok w)
        × (w.index_offset ≡ v'.index_offset)
        × (w.index.is_changed ≡ false)
        × ((k : List ℕ) → get offset_bits k w.index ≡ get offset_bits k v.index)
  unfolding serialize
  load-close u v bs m supported h changed serialized deleted fits s small major minor l g =
      let (bs₂, serialized₂, long) =
        serialize-returns v.version v.index.engine s small major minor in
      let again : bs₂ ≡ bs = cc in
      let some_bytes : 0 < length bs = omega (arith, ap length again, long) in
      let (dev, made, at) = HasRoom-created d r f c m bs h some_bytes (omega arith) in
      let m' : State d f c = record h.taken { device = dev } in
      let savable = HasRoom-IsSavable d r f c m (length bs) h dev at.chunk.addressable in
      let exists : h.place ≢ non_exist_offset = λ e. absurd (omega (arith, h.behind)) in
      let (n, loaded) = load-saved u m' h.place bs supported savable exists g h.behind fits at in
      let (bs', y, serialized', read, unchanged, same) =
        deserialize-serialize_get u.leaf v.version supported v.index s small major minor l in
      let same_bytes : bs' ≡ bs = cc in
      let read' : deserialize u.leaf bs supported ≡ ok y = rw (← same_bytes) read in
      (
        record v { entries = saved d r f c h.place m'; index_offset = h.place },
        record { index = y; index_offset = h.place; entries = n; version = supported },
        close-changed v bs m m' h.place changed serialized deleted made savable,
        loaded ∙ load_index-read u supported h.place bs y n read',
        refl,
        unchanged,
        same,
      )
