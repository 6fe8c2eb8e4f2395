-- ===== src/Allocator/Links.antt =====
-- The links that `ExpandPV` of PVEntriesAllocator.hpp writes into a buffer of clusters.
use yet_another_storage.Prelude.{
  ℕ, zero, suc, ◌+◌, ◌*◌, ◌^◌, ◌≤◌, ◌<◌, ◌≡◌, inl, inr, refl, ap, sym, ◌∙◌, List, length, arith,
  ltb, false, Bool-cases,
}
use native.Mathlib.Nat.{suc-mul, add-mul, mul-le-mul_right}
use yet_another_storage.Bytes.Slice.{slice, splice, slice-splice_self, slice-splice_before}
use yet_another_storage.Bytes.Packed.{save_as_bytes}
use yet_another_storage.Layout.{complex_type_header}
use yet_another_storage.Allocator.{cluster_header, link_clusters}
use yet_another_storage.Allocator.Chain.{
  IsChainEnd, IsChainEnd-bound, advance, with_header, length-with_header, link_clusters-suc,
  link_clusters-zero, cluster_header-length,
}

-- The link of the cluster with the number `i`, where the clusters stand from `device_end` on: the
-- first leads to the entry that was free before, and each other one to the cluster before it.
abbrev pub link_of : ℕ → ℕ → ℕ → ℕ → ℕ
link_of cs device_end free zero = free
link_of cs device_end free (suc i) = device_end + i * cs

module _ (u cs : ℕ) (byte : u < 256) (size : cs < 2 ^ 64) (device_end : ℕ)
    (e : device_end < 2 ^ 64) where
  -- The link that the loop has after `i` clusters.
  abbrev pub nth_link : ℕ → ℕ → ℕ
  nth_link free zero = free
  nth_link free (suc i) = nth_link (advance u cs byte size device_end free) i

  nth_link-positive :
      (free i : ℕ) → 0 < free → free + i * cs < 2 ^ 64 → nth_link free i ≡ free + i * cs
  nth_link-positive free zero h b = omega arith
  nth_link-positive free (suc i) h b =
      let step = suc-mul i cs in
      let next : advance u cs byte size device_end free ≡ free + cs = ground arith in
      let rest = nth_link-positive (free + cs) i (omega arith) (omega arith) in
      ap (λ x. nth_link x i) next ∙ rest ∙ omega arith

  -- The links lead from each cluster to the one before it.
  pub nth_link-link_of :
      (free i : ℕ)
      → 0 < device_end
      → device_end + i * cs < 2 ^ 64
      → IsChainEnd cs device_end free
      → nth_link free i ≡ link_of cs device_end free i
  nth_link-link_of free zero d b c = refl
  nth_link-link_of free (suc i) d b c =
      let step = suc-mul i cs in
      let next : advance u cs byte size device_end free ≡ device_end = elim c [
        | inl z ↦ ground arith
        | inr p ↦ ground (arith, p.0, p.1)
      ] in
      ap (λ x. nth_link x i) next ∙ nth_link-positive device_end i d (omega arith)

  advance-bound : (free : ℕ) → advance u cs byte size device_end free < 2 ^ 64
  advance-bound free = ground arith

  -- What stands before a cluster stays.
  slice-link_clusters_before :
      (n id free : ℕ) (buffer : List ℕ) (q m : ℕ)
      → free < 2 ^ 64
      → q + m ≤ id * cs
      → slice q m (link_clusters u cs device_end n id free buffer).0 ≡ slice q m buffer
  slice-link_clusters_before zero id free buffer q m b h =
      rw (link_clusters-zero u cs byte size) refl
  slice-link_clusters_before (suc n) id free buffer q m b h =
      let step = suc-mul id cs in
      let here : slice q m (with_header u cs byte size id free buffer) ≡ slice q m buffer =
        elim (Bool-cases (ltb (length buffer) (id * cs + 40))) [
          | inl f ↦ rw f refl
          | inr f ↦ rw f (
              slice-splice_before (id * cs) q m
                (save_as_bytes complex_type_header (cluster_header u cs free)) buffer (ground arith)
                h)
        ] in
      ap (λ x. slice q m x.0) (link_clusters-suc u cs byte size device_end n id free buffer)
      ∙ slice-link_clusters_before n (suc id) (advance u cs byte size device_end free)
          (with_header u cs byte size id free buffer) q m (advance-bound free) (omega arith)
      ∙ here

  -- Every cluster of at least 40 bytes that lies within the buffer begins with its header.
  pub slice-link_clusters :
      (n id free : ℕ) (buffer : List ℕ) (i : ℕ)
      → 40 ≤ cs
      → free < 2 ^ 64
      → id * cs + n * cs ≤ length buffer
      → i < n
      → slice (id * cs + i * cs) 40 (link_clusters u cs device_end n id free buffer).0
        ≡ save_as_bytes complex_type_header (cluster_header u cs (nth_link free i))
  slice-link_clusters zero id free buffer i wide b long h = absurd (omega arith)
  slice-link_clusters (suc n) id free buffer zero wide b long h =
      let header = save_as_bytes complex_type_header (cluster_header u cs free) in
      let step = suc-mul id cs in
      let step' = suc-mul n cs in
      let fits : ltb (length buffer) (id * cs + 40) ≡ false = ground arith in
      let at : id * cs + 0 * cs ≡ id * cs = omega arith in
      let sized = cluster_header-length u cs free byte size b in
      let here : slice (id * cs) 40 (with_header u cs byte size id free buffer) ≡ header = rw fits (
        ap (λ k. slice (id * cs) k (splice (id * cs) header buffer)) (sym sized)
        ∙ slice-splice_self (id * cs) header buffer (omega arith)) in
      ap (λ p. slice p 40 (link_clusters u cs device_end (suc n) id free buffer).0) at
      ∙ ap (λ x. slice (id * cs) 40 x.0)
          (link_clusters-suc u cs byte size device_end n id free buffer)
      ∙ slice-link_clusters_before n (suc id) (advance u cs byte size device_end free)
          (with_header u cs byte size id free buffer) (id * cs) 40 (advance-bound free)
          (omega arith)
      ∙ here
  slice-link_clusters (suc n) id free buffer (suc i) wide b long h =
      let step = suc-mul id cs in
      let step' = suc-mul n cs in
      let step'' = suc-mul i cs in
      let at : id * cs + suc i * cs ≡ suc id * cs + i * cs = omega arith in
      let kept = length-with_header u cs byte size id free buffer b in
      ap (λ p. slice p 40 (link_clusters u cs device_end (suc n) id free buffer).0) at
      ∙ ap (λ x. slice (suc id * cs + i * cs) 40 x.0)
          (link_clusters-suc u cs byte size device_end n id free buffer)
      ∙ slice-link_clusters n (suc id) (advance u cs byte size device_end free)
          (with_header u cs byte size id free buffer) i wide (advance-bound free) (omega arith)
          (omega arith)

  -- A round of the outer loop: each of its clusters begins with the header that links it.
  pub slice-link_clusters_round :
      (n free : ℕ) (buffer : List ℕ) (i : ℕ)
      → 40 ≤ cs
      → 0 < device_end
      → device_end + n * cs < 2 ^ 64
      → IsChainEnd cs device_end free
      → n * cs ≤ length buffer
      → i < n
      → slice (i * cs) 40 (link_clusters u cs device_end n 0 free buffer).0
        ≡ save_as_bytes complex_type_header (cluster_header u cs (link_of cs device_end free i))
  slice-link_clusters_round n free buffer i wide d b c long h =
      let before : i * cs ≤ n * cs = mul-le-mul_right cs (omega arith) in
      let at : 0 * cs + i * cs ≡ i * cs = omega arith in
      ap (λ p. slice p 40 (link_clusters u cs device_end n 0 free buffer).0) (sym at)
      ∙ slice-link_clusters n 0 free buffer i wide (IsChainEnd-bound cs device_end free e c)
          (omega arith) h
      ∙ ap (λ x. save_as_bytes complex_type_header (cluster_header u cs x))
          (nth_link-link_of free i d (omega arith) c)

-- The links of the clusters behind a round are those of clusters that follow its last one.
pub link_of-add :
    (cs device_end n free free' i : ℕ)
    → free' + cs ≡ device_end + suc n * cs
    → link_of cs (device_end + suc n * cs) free' i ≡ link_of cs device_end free (suc n + i)
link_of-add cs device_end n free free' zero h =
    let step = suc-mul n cs in
    let number : suc n + 0 ≡ suc n = omega arith in
    let last : free' ≡ device_end + n * cs = omega arith in
    last ∙ ap (link_of cs device_end free) (sym number)
link_of-add cs device_end n free free' (suc i) h =
    let number : suc n + suc i ≡ suc (suc n + i) = omega arith in
    let split = add-mul (suc n) i cs in
    let at : device_end + suc n * cs + i * cs ≡ device_end + (suc n + i) * cs = omega arith in
    at ∙ ap (link_of cs device_end free) (sym number)
