-- ===== src/Reader/Stored.antt =====
-- What a reliable device holds, and what the structures read from it and written to it are.
use yet_another_storage.Prelude.{
  ℕ, ◌+◌, ◌^◌, ◌≤◌, ◌<◌, ◌≡◌, refl, sym, ◌∙◌, ◌⊎◌, inl, inr, List, ◌++◌, length, arith,
  length-append, max,
}
use yet_another_storage.Exec.{ok}
use yet_another_storage.Device.{Device, IsReliable}
use yet_another_storage.Bytes.Slice.{
  slice, length-splice, slice-splice_self, slice-splice_before, slice-splice_behind, slice-left,
  slice-right,
}
use yet_another_storage.Bytes.Packed.{
  Packed, sizeof, save_as_bytes, InRange, load_from_bytes-save_as_bytes, length-save_as_bytes,
}
use yet_another_storage.Reader.{read_header, write_header}

module _ (d : Device) (r : IsReliable d) where
  open r use {content, write_state, read_lem, write_lem, content-write_state}

  -- The bytes stand on the device from the offset on.
  abbrev pub Holds : d.Dev → ℕ → List ℕ → Type 0
  Holds s p bs = (p + length bs ≤ length (content s)) × (slice p (length bs) (content s) ≡ bs)

  -- Every offset in the content is a 64-bit number.
  abbrev pub IsAddressable : d.Dev → Type 0
  IsAddressable s = length (content s) < 2 ^ 64

  pub length-write_state :
      (p : ℕ) (bs : List ℕ) (s : d.Dev)
      → p ≤ length (content s)
      → length (content (write_state p bs s)) ≡ max (length (content s)) (p + length bs)
  length-write_state p bs s h = rw (content-write_state p bs s h) (length-splice p bs (content s) h)

  pub Holds-write_self :
      (p : ℕ) (bs : List ℕ) (s : d.Dev) → p ≤ length (content s) → Holds (write_state p bs s) p bs
  Holds-write_self p bs s h = (
    omega (arith, length-write_state p bs s h),
    rw (content-write_state p bs s h) (slice-splice_self p bs (content s) h),
  )

  -- What stands in two parts, stands part by part.
  pub Holds-append :
      (s : d.Dev) (p : ℕ) (bs cs : List ℕ)
      → Holds s p (bs ++ cs)
      → Holds s p bs × Holds s (p + length bs) cs
  Holds-append s p bs cs (within, same) =
      let e = length-append bs cs in
      (
        (omega arith, slice-left p bs cs (content s) same),
        (omega arith, slice-right p bs cs (content s) same),
      )

  -- A write leaves what stands before or behind it.
  pub Holds-write_ne :
      (p q : ℕ) (bs cs : List ℕ) (s : d.Dev)
      → p ≤ length (content s)
      → (q + length cs ≤ p) ⊎ (p + length bs ≤ q)
      → Holds s q cs
      → Holds (write_state p bs s) q cs
  Holds-write_ne p q bs cs s h (inl before) (within, same) = (
    omega (arith, length-write_state p bs s h),
    rw (content-write_state p bs s h)
        (slice-splice_before p q (length cs) bs (content s) h before ∙ same),
  )
  Holds-write_ne p q bs cs s h (inr behind) (within, same) = (
    omega (arith, length-write_state p bs s h),
    rw (content-write_state p bs s h)
        (slice-splice_behind p q (length cs) bs (content s) h behind ∙ same),
  )

  pub read_Holds :
      (p n : ℕ) (bs : List ℕ) (s : d.Dev)
      → IsAddressable s
      → Holds s p bs
      → n ≡ length bs
      → d.read p n s ≡ (ok bs, s)
  read_Holds p n bs s a (within, same) e =
      rw e (read_lem p (length bs) s within (omega arith) ∙ rw same refl)

  -- A structure that stands at an offset is what is read there.
  pub read_header_lem :
      {H : Type 0} (P : Packed H) (h : H) (p : ℕ) (s : d.Dev)
      → IsAddressable s
      → InRange P h
      → Holds s p (save_as_bytes P h)
      → read_header d P p s ≡ (ok h, s)
  unfolding read_header
  read_header_lem P h p s a i held =
      rw
        (read_Holds p (sizeof P.widths) (save_as_bytes P h) s a held
          (sym (length-save_as_bytes P h i)))
        (rw (load_from_bytes-save_as_bytes P h i) refl)

  -- A structure that is written stands at the offset.
  pub write_header_lem :
      {H : Type 0} (P : Packed H) (h : H) (p : ℕ) (s : d.Dev)
      → p ≤ length (content s)
      → write_header d P p h s ≡ (ok tt, write_state p (save_as_bytes P h) s)
  unfolding write_header
  write_header_lem P h p s within = rw (write_lem p (save_as_bytes P h) s within) refl
