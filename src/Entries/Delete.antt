-- ===== src/Entries/Delete.antt =====
-- `DeleteEntry` of a simple entry, and how the entry is found again.
use yet_another_storage.Prelude.{
  ℕ, ◌+◌, ◌≤◌, ◌<◌, ◌^◌, ◌≡◌, ◌≢◌, refl, ap, ◌∙◌, [], ◌∷◌, length, arith, Bool-cases, inl, inr,
  ◌==◌, if◌then◌else◌, Bool, true, false,
}
use yet_another_storage.Exec.{ok}
use yet_another_storage.Device.{Device, IsReliable}
use yet_another_storage.Allocator.{DoubleOps}
use yet_another_storage.Bytes.Packed.{save_as_bytes, length-save_as_bytes, InRange}
use yet_another_storage.Reader.{read_header, write_header}
use yet_another_storage.Reader.Stored.{
  Holds, IsAddressable, Holds-write_self, write_header_lem, read_header_lem, length-write_state,
}
use yet_another_storage.Layout.{
  CommonTypeHeader, common_type_header, next_free_entry_offset, set_next_free_entry_offset,
}
use yet_another_storage.Layout.Union.{next_free_entry_offset-set}
use yet_another_storage.Layout.Types
use yet_another_storage.Freelist.{
  Bins, get_free_entry, push_free_entry, get_bin_id_for_size, set_offset_at, non_exist_offset,
  default_cluster_size,
}
use yet_another_storage.Freelist.Bins.{HasLimits}
use yet_another_storage.Freelist.PushPop.{pop-push}
use yet_another_storage.Freelist.Restore.{push-restore, set_offset_at-restore}
use yet_another_storage.Entries.{Chance}
use yet_another_storage.Entries.Types.{
  SimpleType, int64, uint64, double, header_width, convert_to_entry_type-simple_code,
}
use yet_another_storage.Entries.Allocate.{
  State, get_entry_type, get_free_entry_offset, get_free_offset, pop_free, push_free,
  recover_and_push_simple,
}
use yet_another_storage.Entries.Operations.{delete_entry, delete_simple}
use yet_another_storage.Entries.Standing.{
  SimpleAt, SimpleAt-type, SimpleAt-read, get_entry_type_lem, on_device_ok,
}

module _ (d : Device) (r : IsReliable d) (f : DoubleOps) (c : Chance) where
  open r use {content, write_state}

  abbrev pub free_type : ℕ → ℕ
  free_type width = if width == 4 then Types.empty4_simple else Types.empty8_simple

  -- The header that `DeleteEntry` leaves.
  abbrev pub freed : ℕ → ℕ → CommonTypeHeader → CommonTypeHeader
  freed width next h =
      set_next_free_entry_offset next
        (record h { value_type = free_type width; value_state = Types.empty })

  abbrev pub after_delete : (m : State d f c) (p w : ℕ) (h : CommonTypeHeader) → State d f c
  after_delete m p w h = record m {
    device =
        write_state p
          (save_as_bytes (common_type_header w) (freed w (get_free_entry (8 + w) m.bins) h))
          m.device;
    bins = (push_free_entry p (8 + w) m.bins).1;
  }

  -- `DeleteEntry` of a simple entry returns.
  pub delete_entry-SimpleAt :
      (m : State d f c) (p : ℕ) (t : SimpleType) (h : CommonTypeHeader)
      → SimpleAt d r f c m p t h
      → delete_entry d f c p m ≡ (ok tt, after_delete m p (header_width t) h)
  unfolding delete_entry delete_simple push_free
  delete_entry-SimpleAt m p t h at =
      let w = header_width t in
      let next = get_free_entry (8 + w) m.bins in
      let h' = freed w next h in
      rw
        (
          SimpleAt-type d r f c m p t h at,
          convert_to_entry_type-simple_code t m,
          SimpleAt-read d r f c m p t h at,
        )
        (rw
          (on_device_ok (write_header d (common_type_header w) p h') m
            (write_header_lem d r (common_type_header w) h' p m.device (omega (arith, at.stands))))
          refl)

  -- A free simple entry of which the link is `next` stands at the offset.
  pub record FreeAt (m : State d f c) (p w next : ℕ) : Type 0 where
    pub free_header : CommonTypeHeader
    pub typed : free_header.value_type ≡ free_type w
    pub linked : next_free_entry_offset free_header ≡ next
    pub in_range : InRange (common_type_header w) free_header
    pub stands : Holds d r m.device p (save_as_bytes (common_type_header w) free_header)
    pub addressable : IsAddressable d r m.device

  FreeAt-type :
      (m : State d f c) (p w next : ℕ) (at : FreeAt m p w next)
      → get_entry_type d f c p m ≡ (ok (free_type w), m)
  unfolding save_as_bytes
  FreeAt-type m p w next at =
      let h = at.free_header in
      get_entry_type_lem d r f c h.value_type h.value_state p (2 ∷ 4 ∷ w ∷ [])
        (h.expired_time_high ∷ h.expired_time_low ∷ h.value ∷ []) m at.addressable
        (at.in_range.0, (at.in_range.1.0, tt)) at.stands
      ∙ ap (λ v. (ok v, m)) at.typed

  -- What `recoverAndPushNextEntry` does at a free simple entry.
  recover_FreeAt :
      (m : State d f c) (p w next : ℕ) (at : FreeAt m p w next)
      → recover_and_push_simple d f c w p m ≡ (
          if next == non_exist_offset
          then (ok false, m)
          else (ok true, record m { bins = (push_free_entry next (8 + w) m.bins).1 }))
  unfolding recover_and_push_simple push_free
  recover_FreeAt m p w next at =
      let h = at.free_header in
      rw
        (on_device_ok (read_header d (common_type_header w) p) m (
          read_header_lem d r (common_type_header w) h p m.device at.addressable at.in_range
            at.stands))
        (rw at.linked
          (elim (Bool-cases (next == non_exist_offset)) [ inl e ↦ rw e refl | inr e ↦ rw e refl ]))

  get_free_offset-pushed :
      (m : State d f c) (bins : Bins) (p s : ℕ)
      → s ≤ default_cluster_size
      → HasLimits bins
      → p ≢ non_exist_offset
      → m.bins ≡ (push_free_entry p s bins).1
      → get_free_offset d f c s m ≡ (
        ok p,
        record m { bins = set_offset_at (get_bin_id_for_size s bins) non_exist_offset bins },
      )
  unfolding get_free_offset pop_free
  get_free_offset-pushed m bins p s small h exists pushed =
      let e : (p == non_exist_offset) ≡ false = ground arith in
      rw (pushed, pop-push p s bins h exists small) (rw e refl)

  recover-restores :
      (m : State d f c) (bins : Bins) (p w : ℕ)
      → HasLimits bins
      → m.bins ≡ set_offset_at (get_bin_id_for_size (8 + w) bins) non_exist_offset bins
      → FreeAt m p w (get_free_entry (8 + w) bins)
      → (b : Bool) × (recover_and_push_simple d f c w p m ≡ (ok b, record m { bins = bins }))
  recover-restores m bins p w h emptied at =
      let next = get_free_entry (8 + w) bins in
      elim (Bool-cases (next == non_exist_offset)) [
        | inl e ↦
            let same : m.bins ≡ bins =
              emptied ∙ set_offset_at-restore (8 + w) bins h (ground arith) in
            (
              false,
              recover_FreeAt m p w next at
                  ∙ rw e (ap (λ x. (ok false, record m { bins = x })) same),
            )
        | inr e ↦
            let same : (push_free_entry next (8 + w) m.bins).1 ≡ bins =
              rw emptied (push-restore (8 + w) non_exist_offset bins h) in
            (
              true,
              recover_FreeAt m p w next at ∙ rw e (ap (λ x. (ok true, record m { bins = x })) same),
            )
      ]

  at_bins :
      {m : State d f c} {p w next : ℕ} (bins : Bins)
      → FreeAt m p w next
      → FreeAt (record m { bins = bins }) p w next
  at_bins bins at = record {
    free_header = at.free_header;
    typed = at.typed;
    linked = at.linked;
    in_range = at.in_range;
    stands = at.stands;
    addressable = at.addressable;
  }

  -- The allocation of an entry of the size of the free simple entry that was pushed last.
  get_free_entry_offset-pushed4 :
      (m : State d f c) (bins : Bins) (p : ℕ)
      → HasLimits bins
      → p ≢ non_exist_offset
      → m.bins ≡ (push_free_entry p 12 bins).1
      → FreeAt m p 4 (get_free_entry 12 bins)
      → get_free_entry_offset d f c 12 m ≡ (ok p, record m { bins = bins })
  unfolding get_free_entry_offset
  get_free_entry_offset-pushed4 m bins p h exists pushed at =
      let emptied = set_offset_at (get_bin_id_for_size 12 bins) non_exist_offset bins in
      let at' = at_bins {m = m} emptied at in
      let m' = record m { bins = emptied } in
      rw
        (
          get_free_offset-pushed m bins p 12 (omega arith) h exists pushed,
          FreeAt-type m' p 4 (get_free_entry 12 bins) at',
          (recover-restores m' bins p 4 h refl at').1,
        )
        refl

  get_free_entry_offset-pushed8 :
      (m : State d f c) (bins : Bins) (p : ℕ)
      → HasLimits bins
      → p ≢ non_exist_offset
      → m.bins ≡ (push_free_entry p 16 bins).1
      → FreeAt m p 8 (get_free_entry 16 bins)
      → get_free_entry_offset d f c 16 m ≡ (ok p, record m { bins = bins })
  unfolding get_free_entry_offset
  get_free_entry_offset-pushed8 m bins p h exists pushed at =
      let emptied = set_offset_at (get_bin_id_for_size 16 bins) non_exist_offset bins in
      let at' = at_bins {m = m} emptied at in
      let m' = record m { bins = emptied } in
      rw
        (
          get_free_offset-pushed m bins p 16 (omega arith) h exists pushed,
          FreeAt-type m' p 8 (get_free_entry 16 bins) at',
          (recover-restores m' bins p 8 h refl at').1,
        )
        refl

  get_free_entry_offset-pushed :
      (m : State d f c) (bins : Bins) (p : ℕ) (t : SimpleType)
      → HasLimits bins
      → p ≢ non_exist_offset
      → m.bins ≡ (push_free_entry p (8 + header_width t) bins).1
      → FreeAt m p (header_width t) (get_free_entry (8 + header_width t) bins)
      → get_free_entry_offset d f c (8 + header_width t) m ≡ (ok p, record m { bins = bins })
  get_free_entry_offset-pushed m bins p int64 = get_free_entry_offset-pushed8 m bins p
  get_free_entry_offset-pushed m bins p uint64 = get_free_entry_offset-pushed8 m bins p
  get_free_entry_offset-pushed m bins p double = get_free_entry_offset-pushed8 m bins p
  get_free_entry_offset-pushed m bins p _ = get_free_entry_offset-pushed4 m bins p

  freed-InRange :
      (t : SimpleType) (next : ℕ) (h : CommonTypeHeader)
      → next < 2 ^ 64
      → InRange (common_type_header (header_width t)) h
      → InRange (common_type_header (header_width t)) (freed (header_width t) next h)
  unfolding set_next_free_entry_offset
  freed-InRange int64 next h n i = omega arith
  freed-InRange uint64 next h n i = omega arith
  freed-InRange double next h n i = omega arith
  freed-InRange _ next h n i = omega arith

  -- On a reliable device, with bins that have the limits of the source and a 64-bit offset in the
  -- bin of the size, `DeleteEntry` of a simple entry at an offset other than zero returns; the
  -- next allocation of its size then hands out the same offset and leaves the freelists as they
  -- were before the deletion.
  pub delete_entry-reuse :
      (m : State d f c) (p : ℕ) (t : SimpleType) (h : CommonTypeHeader)
      → SimpleAt d r f c m p t h
      → HasLimits m.bins
      → p ≢ non_exist_offset
      → get_free_entry (8 + header_width t) m.bins < 2 ^ 64
      → (m' : State d f c) × (delete_entry d f c p m ≡ (ok tt, m'))
        × (get_free_entry_offset d f c (8 + header_width t) m'
            ≡ (ok p, record m' { bins = m.bins }))
  delete_entry-reuse m p t h at limits exists n =
      let w = header_width t in
      let next = get_free_entry (8 + w) m.bins in
      let h' = freed w next h in
      let m' = after_delete m p w h in
      let P = common_type_header w in
      let bs = save_as_bytes P h' in
      let i' = freed-InRange t next h n at.in_range in
      let size = length-save_as_bytes P h at.in_range in
      let size' = length-save_as_bytes P h' i' in
      let within : p ≤ length (content m.device) = omega (arith, at.stands) in
      let free : FreeAt m' p w next = record {
        free_header = h';
        typed = unfold set_next_free_entry_offset in refl;
        linked = next_free_entry_offset-set next _ n;
        in_range = i';
        stands = Holds-write_self d r p bs m.device within;
        addressable =
            omega (arith, at.stands, at.addressable, length-write_state d r p bs m.device within);
      } in
      (
        m',
        delete_entry-SimpleAt m p t h at,
        get_free_entry_offset-pushed m' m.bins p t limits exists refl free,
      )
