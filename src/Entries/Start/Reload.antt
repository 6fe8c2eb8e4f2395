-- ===== src/Entries/Start/Reload.antt =====
-- What `LoadStartEntries` makes of what `SaveStartEntries` has written.
use yet_another_storage.Prelude.{
  ℕ, ◌≤◌, ◌≡◌, ◌≢◌, refl, true, false, List, length, arith, ◌==◌, if◌then◌else◌, Bool-cases, inl,
  inr,
}
use yet_another_storage.Utils.Version.{version_gt}
use yet_another_storage.Errors.{yas, invalid_pv_signature_error}
use yet_another_storage.Exec.{Result, ok, throw}
use yet_another_storage.Device.{Device, IsReliable}
use yet_another_storage.Allocator.{DoubleOps}
use yet_another_storage.Bytes.Packed.{save_as_bytes, length-save_as_bytes, InRange}
use yet_another_storage.Reader.{read_header, write_header}
use yet_another_storage.Reader.Stored.{
  Holds, IsAddressable, Holds-write_self, Holds-write_ne, write_header_lem, read_header_lem,
  length-write_state,
}
use yet_another_storage.Freelist.{non_exist_offset, get_bins}
use yet_another_storage.Freelist.Bins.{HasLimits, set_bins-get_bins}
use yet_another_storage.Layout.{pv_header, default_signature, FreelistHeader, freelist_header}
use yet_another_storage.Entries.{Chance}
use yet_another_storage.Entries.Allocate.{State}
use yet_another_storage.Entries.Standing.{on_device_ok}
use yet_another_storage.Entries.Start.{
  start_header, save_start_entries, load_start_entries, pv_header_size, start_size,
}

module _ (d : Device) (r : IsReliable d) (f : DoubleOps) (c : Chance) where
  open r use {content, write_state}

  abbrev pub bins_header : State d f c → FreelistHeader
  bins_header m = record { free_bins = get_bins m.bins }

  -- The fields that are saved hold values of their types.
  pub record IsSavable (index_offset : ℕ) (m : State d f c) : Type 0 where
    pub header : InRange pv_header (start_header d f c index_offset m)
    pub bins : InRange freelist_header (bins_header m)
    pub limits : HasLimits m.bins
    pub addressable : IsAddressable d r m.device

  abbrev pub with_header : ℕ → State d f c → State d f c
  with_header i m = record m {
    device = write_state 0 (save_as_bytes pv_header (start_header d f c i m)) m.device;
  }

  abbrev pub saved : ℕ → State d f c → State d f c
  saved i m = record m {
    device =
        write_state pv_header_size (save_as_bytes freelist_header (bins_header m))
          (with_header i m).device;
    allocator = record m.allocator { device_end = start_size };
  }

  module _ (i : ℕ) (m : State d f c) (w : IsSavable i m) where
    abbrev head : List ℕ
    head = save_as_bytes pv_header (start_header d f c i m)

    abbrev tail : List ℕ
    tail = save_as_bytes freelist_header (bins_header m)

    head-length : length head ≡ 36
    head-length = length-save_as_bytes pv_header (start_header d f c i m) w.header

    tail-length : length tail ≡ 88
    tail-length = length-save_as_bytes freelist_header (bins_header m) w.bins

    behind : pv_header_size ≤ length (content (with_header i m).device)
    behind = omega (arith, length-write_state d r 0 head m.device (omega arith), head-length)

    pub save_start_entries-saved : save_start_entries d f c i m ≡ (ok tt, saved i m)
    unfolding save_start_entries
    save_start_entries-saved =
        rw
          (on_device_ok (write_header d pv_header 0 (start_header d f c i m)) m
            (write_header_lem d r pv_header (start_header d f c i m) 0 m.device (omega arith)))
          (rw
            (on_device_ok (write_header d freelist_header pv_header_size (bins_header m))
              (with_header i m)
              (write_header_lem d r freelist_header (bins_header m) pv_header_size
                (with_header i m).device behind))
            refl)

    head-stands : Holds d r (saved i m).device 0 head
    head-stands =
        Holds-write_ne d r pv_header_size 0 tail head (with_header i m).device behind
          (inl (omega (arith, head-length))) (Holds-write_self d r 0 head m.device (omega arith))

    tail-stands : Holds d r (saved i m).device pv_header_size tail
    tail-stands = Holds-write_self d r pv_header_size tail (with_header i m).device behind

    pub saved-IsAddressable : IsAddressable d r (saved i m).device
    saved-IsAddressable = omega (
      arith,
      w.addressable,
      head-length,
      tail-length,
      length-write_state d r 0 head m.device (omega arith),
      length-write_state d r pv_header_size tail (with_header i m).device behind,
    )

  -- What `LoadStartEntries` returns from the device that `SaveStartEntries` leaves.
  abbrev pub reloaded : ℕ → State d f c → State d f c → Result ℕ × State d f c
  reloaded i m n =
      if version_gt m.version n.version
      then (
        throw (yas "PV header parsing: unsupported version" invalid_pv_signature_error),
        record n { device = (saved i m).device },
      )
      else (
        ok i,
        record n {
          device = (saved i m).device;
          bins = m.bins;
          cluster_size = m.cluster_size;
          priority = m.priority;
          allocator = record n.allocator { device_end = m.allocator.device_end };
        },
      )

  pub load_start_entries-saved :
      (i : ℕ) (m n : State d f c)
      → IsSavable i m
      → i ≢ non_exist_offset
      → load_start_entries d f c (record n { device = (saved i m).device }) ≡ reloaded i m n
  unfolding load_start_entries
  load_start_entries-saved i m n w exists =
      let opened : State d f c = record n { device = (saved i m).device } in
      let a = saved-IsAddressable i m w in
      let first = on_device_ok (read_header d pv_header 0) opened (
        read_header_lem d r pv_header (start_header d f c i m) 0 opened.device a w.header
          (head-stands i m w)) in
      let second = on_device_ok (read_header d freelist_header pv_header_size) opened (
        read_header_lem d r freelist_header (bins_header m) pv_header_size opened.device a w.bins
          (tail-stands i m w)) in
      let signed : (default_signature == default_signature) ≡ true = ground arith in
      let indexed : (i == 0) ≡ false = ground arith in
      rw (first, signed)
        (elim (Bool-cases (version_gt m.version n.version)) [
          | inl e ↦ rw e refl
          | inr e ↦ rw (e, indexed) (rw (second, set_bins-get_bins m.bins w.limits) refl)
        ])

  -- An offset that stands for none is refused, whatever else was saved.
  pub load_start_entries-refuses :
      (m n : State d f c)
      → IsSavable non_exist_offset m
      → version_gt m.version n.version ≡ false
      → load_start_entries d f c (record n { device = (saved non_exist_offset m).device }) ≡ (
        throw (yas "PV header parsing: invalid inverted index offset" invalid_pv_signature_error),
        record n { device = (saved non_exist_offset m).device },
      )
  unfolding load_start_entries
  load_start_entries-refuses m n w e =
      let opened : State d f c = record n { device = (saved non_exist_offset m).device } in
      let first = on_device_ok (read_header d pv_header 0) opened (
        read_header_lem d r pv_header (start_header d f c non_exist_offset m) 0 opened.device
          (saved-IsAddressable non_exist_offset m w) w.header (head-stands non_exist_offset m w)) in
      let signed : (default_signature == default_signature) ≡ true = ground arith in
      rw (first, signed) (rw e refl)

  -- On a reliable device, where the fields hold values of their types, the bins have the limits of
  -- the source and the offset of the index is not zero, `SaveStartEntries` returns.
  -- `LoadStartEntries` of a manager that opens the same device then returns the offset of the
  -- index, and has the bins, the cluster size, the priority and the end of the device that were
  -- saved, unless the saved version is greater than its own: then it throws and keeps its state.
  pub load-save_start_entries :
      (i : ℕ) (m n : State d f c)
      → IsSavable i m
      → i ≢ non_exist_offset
      → (m' : State d f c) × (save_start_entries d f c i m ≡ (ok tt, m'))
        × (load_start_entries d f c (record n { device = m'.device }) ≡ (
            if version_gt m.version n.version
            then (
              throw (yas "PV header parsing: unsupported version" invalid_pv_signature_error),
              record n { device = m'.device },
            )
            else (
              ok i,
              record n {
                device = m'.device;
                bins = m.bins;
                cluster_size = m.cluster_size;
                priority = m.priority;
                allocator = record n.allocator { device_end = m.allocator.device_end };
              },
            )))
  load-save_start_entries i m n w exists =
      (saved i m, save_start_entries-saved i m w, load_start_entries-saved i m n w exists)
