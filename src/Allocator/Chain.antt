-- ===== src/Allocator/Chain.antt =====
-- The headers by which `ExpandPV` links new clusters.
use yet_another_storage.Prelude.{
  ℕ, zero, suc, ◌+◌, ◌*◌, ◌%◌, ◌^◌, ◌≤◌, ◌<◌, ◌≡◌, ◌⊎◌, inl, inr, refl, ap, ◌∙◌, List, length,
  arith, ltb, if◌then◌else◌, Bool-cases,
}
use native.Mathlib.Nat.{suc-mul}
use yet_another_storage.Bytes.Slice.{splice, length-splice}
use yet_another_storage.Bytes.Cursor.{save_at}
use yet_another_storage.Bytes.Packed.{save_as_bytes, length-save_as_bytes}
use yet_another_storage.Layout.{complex_type_header}
use yet_another_storage.Freelist.{is_exist_offset}
use yet_another_storage.Allocator.{cluster_header, link_clusters}

-- The values of a header fit, where the size of a cluster and the link have 64 bits.
pub cluster_header-length :
    (u cs next : ℕ)
    → u < 256
    → cs < 2 ^ 64
    → next < 2 ^ 64
    → length (save_as_bytes complex_type_header (cluster_header u cs next)) ≡ 40
unfolding cluster_header
cluster_header-length u cs next a b c =
    length-save_as_bytes complex_type_header (cluster_header u cs next) (omega arith)

-- The chain has no cluster yet, or its last one, of so many bytes, lies before the end of the device.
abbrev pub IsChainEnd : ℕ → ℕ → ℕ → Type 0
IsChainEnd cs device_end free = (free ≡ 0) ⊎ ((0 < free) × (free + cs ≡ device_end))

pub IsChainEnd-bound :
    (cs device_end free : ℕ) → device_end < 2 ^ 64 → IsChainEnd cs device_end free → free < 2 ^ 64
IsChainEnd-bound cs device_end free h (inl e) = omega arith
IsChainEnd-bound cs device_end free h (inr (p, e)) = omega arith

module _ (u cs : ℕ) (byte : u < 256) (size : cs < 2 ^ 64) where
  -- The next offset of the chain.
  abbrev pub advance : ℕ → ℕ → ℕ
  advance device_end free = if is_exist_offset free then (free + cs) % 2 ^ 64 else device_end

  -- The buffer with the header of a cluster.
  abbrev pub with_header : ℕ → ℕ → List ℕ → List ℕ
  with_header id free buffer =
      if ltb (length buffer) (id * cs + 40)
      then buffer
      else splice (id * cs) (save_as_bytes complex_type_header (cluster_header u cs free)) buffer

  pub length-with_header :
      (id free : ℕ) (buffer : List ℕ)
      → free < 2 ^ 64
      → length (with_header id free buffer) ≡ length buffer
  length-with_header id free buffer h =
      let header = cluster_header-length u cs free byte size h in
      elim (Bool-cases (ltb (length buffer) (id * cs + 40))) [
        | inl f ↦ rw f refl
        | inr f ↦
            let fits : id * cs + 40 ≤ length buffer = ground arith in
            let grown =
              length-splice (id * cs) (save_as_bytes complex_type_header (cluster_header u cs free))
                buffer (omega arith) in
            rw f (omega (arith, grown, header))
      ]

  pub link_clusters-suc :
      (device_end n id free : ℕ) (buffer : List ℕ)
      → link_clusters u cs device_end (suc n) id free buffer
        ≡ link_clusters u cs device_end n
            (suc id)
            (advance device_end free)
            (with_header id free buffer)
  unfolding link_clusters save_at
  link_clusters-suc device_end n id free buffer = refl

  pub link_clusters-zero :
      (device_end id free : ℕ) (buffer : List ℕ)
      → link_clusters u cs device_end 0 id free buffer ≡ (buffer, free)
  unfolding link_clusters
  link_clusters-zero device_end id free buffer = refl

  -- The buffer keeps its length.
  pub length-link_clusters :
      (device_end n id free : ℕ) (buffer : List ℕ)
      → device_end < 2 ^ 64
      → free < 2 ^ 64
      → length (link_clusters u cs device_end n id free buffer).0 ≡ length buffer
  length-link_clusters device_end zero id free buffer e h = rw link_clusters-zero refl
  length-link_clusters device_end (suc n) id free buffer e h =
      let next : advance device_end free < 2 ^ 64 = ground arith in
      rw link_clusters-suc (
        length-link_clusters device_end n (suc id) (advance device_end free)
          (with_header id free buffer) e next
        ∙ length-with_header id free buffer h)

  -- From the offset of a cluster on, the chain advances by one cluster for each.
  link_clusters-offset :
      (device_end n id free : ℕ) (buffer : List ℕ)
      → 0 < free
      → free + n * cs < 2 ^ 64
      → (link_clusters u cs device_end n id free buffer).1 ≡ free + n * cs
  link_clusters-offset device_end zero id free buffer h b = rw link_clusters-zero (omega arith)
  link_clusters-offset device_end (suc n) id free buffer h b =
      let step = suc-mul n cs in
      let next : advance device_end free ≡ free + cs = ground arith in
      let sum : free + cs + n * cs ≡ free + suc n * cs = omega arith in
      rw link_clusters-suc (
        ap (λ x. (link_clusters u cs device_end n (suc id) x (with_header id free buffer)).1) next
        ∙ link_clusters-offset device_end n (suc id) (free + cs) (with_header id free buffer)
            (omega arith) (omega arith)
        ∙ sum)

  -- After at least one cluster, the last one lies before the new end.
  pub link_clusters-chain :
      (device_end n free : ℕ) (buffer : List ℕ)
      → 0 < device_end
      → device_end + suc n * cs < 2 ^ 64
      → IsChainEnd cs device_end free
      → (link_clusters u cs device_end (suc n) 0 free buffer).1 + cs ≡ device_end + suc n * cs
  link_clusters-chain device_end n free buffer d b (inl e) =
      let step = suc-mul n cs in
      let next : advance device_end free ≡ device_end = ground arith in
      let last =
        link_clusters-offset device_end n 1 device_end (with_header 0 free buffer) d
          (omega arith) in
      rw (link_clusters-suc, next) (omega (arith, last))
  link_clusters-chain device_end n free buffer d b (inr (pos, e)) =
      let step = suc-mul n cs in
      let last = link_clusters-offset device_end (suc n) 0 free buffer pos (omega arith) in
      omega (arith, last)
