-- ===== src/Volume/Unused.antt =====
-- What `Load` makes of a volume that was created and closed without a change.
use yet_another_storage.Prelude.{ℕ, ◌≡◌, refl, false, some, arith}
use yet_another_storage.Utils.Version.{Version, version_gt}
use yet_another_storage.Errors.{yas, invalid_pv_signature_error}
use yet_another_storage.Exec.{ok, throw}
use yet_another_storage.Device.{Device, IsReliable}
use yet_another_storage.Allocator.{DoubleOps}
use yet_another_storage.Index.{new_index}
use yet_another_storage.Freelist.{non_exist_offset, default_cluster_size}
use yet_another_storage.Entries.{Chance}
use yet_another_storage.Entries.Allocate.{State}
use yet_another_storage.Entries.Start.{load_start_entries}
use yet_another_storage.Entries.Start.Reload.{
  IsSavable, saved, save_start_entries-saved, saved-IsAddressable, load_start_entries-refuses,
}
use yet_another_storage.Volume.{Volume, offset_bits}
use yet_another_storage.Volume.Lifecycle.{
  Uninitialised, new_entries, load_content, load_index, load, create_empty, create, save_if_changed,
  close,
}
use yet_another_storage.Volume.Reopen.{close_body-saved}

module _ (d : Device) (r : IsReliable d) (f : DoubleOps) (c : Chance) where
  abbrev new_volume : Version → State d f c → Volume d.Dev f.Double
  new_volume version m = record {
    index = new_index offset_bits;
    index_offset = non_exist_offset;
    entries = m;
    version = version;
  }

  create-saved :
      (u : Uninitialised) (version : Version) (priority cluster_size : ℕ) (dev : d.Dev)
      → IsSavable d r f c non_exist_offset (new_entries d f c u version priority cluster_size dev)
      → create d f c u version priority cluster_size false (some dev)
        ≡ ok (
            new_volume version (
              saved d r f c non_exist_offset
                (new_entries d f c u version priority cluster_size dev)))
  unfolding create create_empty
  create-saved u version priority cluster_size dev w =
      rw
        (save_start_entries-saved d r f c non_exist_offset
          (new_entries d f c u version priority cluster_size dev) w)
        refl

  saved-IsSavable :
      (m : State d f c)
      → IsSavable d r f c non_exist_offset m
      → IsSavable d r f c non_exist_offset (saved d r f c non_exist_offset m)
  saved-IsSavable m w =
      let header = w.header in
      record {
        header = omega (arith, header);
        bins = w.bins;
        limits = w.limits;
        addressable = saved-IsAddressable d r f c non_exist_offset m w;
      }

  close-unchanged :
      (version : Version) (m : State d f c)
      → IsSavable d r f c non_exist_offset m
      → close d f c (new_volume version m)
        ≡ (ok tt, new_volume version (saved d r f c non_exist_offset m))
  unfolding save_if_changed new_index
  close-unchanged version m w =
      close_body-saved d r f c (new_volume version m) (new_volume version m) refl w

  load-refuses :
      (u : Uninitialised) (supported : Version) (m : State d f c)
      → IsSavable d r f c non_exist_offset m
      → version_gt m.version supported ≡ false
      → load d f c u supported (some (saved d r f c non_exist_offset m).device)
        ≡ throw (yas "PV header parsing: invalid inverted index offset" invalid_pv_signature_error)
  unfolding load load_content load_index
  load-refuses u supported m w g =
      let opened =
        new_entries d f c u supported 0 default_cluster_size
          (saved d r f c non_exist_offset m).device in
      let refused : load_start_entries d f c opened ≡ (
        throw (yas "PV header parsing: invalid inverted index offset" invalid_pv_signature_error),
        opened,
      ) =
        unfold new_entries in load_start_entries-refuses d r f c m opened w g in
      rw refused refl

  -- On a reliable device, where the fields of the start hold values of their types, `Create` of a
  -- volume that does not exist returns, and `close` of it returns; but `Load` of what they leave
  -- throws, since no index was saved and its offset stands for none.
  pub load-close_unused :
      (u : Uninitialised) (version supported : Version) (priority cluster_size : ℕ) (dev : d.Dev)
      → IsSavable d r f c non_exist_offset (new_entries d f c u version priority cluster_size dev)
      → version_gt version supported ≡ false
      → (v v' : Volume d.Dev f.Double) × (create d f c u version priority cluster_size false
            (some dev)
          ≡ ok v)
        × (close d f c v ≡ (ok tt, v'))
        × (load d f c u supported (some v'.entries.device)
            ≡ throw
                (yas "PV header parsing: invalid inverted index offset" invalid_pv_signature_error))
  load-close_unused u version supported priority cluster_size dev w g =
      let m = new_entries d f c u version priority cluster_size dev in
      let once = saved d r f c non_exist_offset m in
      let w' = saved-IsSavable m w in
      (
        new_volume version once,
        new_volume version (saved d r f c non_exist_offset once),
        create-saved u version priority cluster_size dev w,
        close-unchanged version once w',
        load-refuses u supported once w' (unfold new_entries in g),
      )
