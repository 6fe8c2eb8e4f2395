-- ===== src/Allocator/Rounds.antt =====
-- One round of the outer loop of `ExpandPV` in PVEntriesAllocator.hpp.
use yet_another_storage.Prelude.{
  ℕ, suc, ◌+◌, ◌*◌, ◌^◌, ◌≤◌, ◌<◌, ◌≡◌, refl, ap, ◌∙◌, List, length, arith,
}
use native.Mathlib.Nat.{suc-mul, mul-le-mul_right}
use yet_another_storage.Bytes.Slice.{slice, slice-splice_before, slice-splice_within}
use yet_another_storage.Bytes.Packed.{save_as_bytes}
use yet_another_storage.Layout.{complex_type_header}
use yet_another_storage.Device.{Device, IsReliable}
use yet_another_storage.Allocator.{DoubleOps, Allocator, cluster_header, link_clusters}
use yet_another_storage.Allocator.Chain.{
  IsChainEnd, IsChainEnd-bound, length-link_clusters, link_clusters-chain,
}
use yet_another_storage.Allocator.Links.{link_of, slice-link_clusters_round}

module _ (u cs : ℕ) (byte : u < 256) (size : cs < 2 ^ 64) where
  module _ (d : Device) (r : IsReliable d) (f : DoubleOps) (n : ℕ) where
    open r use {content, write_state, content-write_state}

    -- The bytes of a round.
    abbrev pub round : ℕ
    round = suc n * cs

    abbrev pub linked : Allocator f.Double → ℕ → List ℕ → List ℕ × ℕ
    linked a free buffer =
        link_clusters u a.cluster_size a.device_end a.simultaneously_allocated_clusters 0 free
          buffer

    -- What one round leaves behind it, in the state `s₁`.
    pub record Rounded (free free' : ℕ) (a : Allocator f.Double) (s s₁ : d.Dev) : Type 0 where
      pub end : free' + cs ≡ a.device_end + round
      pub kept : (q m : ℕ) → q + m ≤ a.device_end → slice q m (content s₁) ≡ slice q m (content s)
      pub links :
          (i : ℕ)
          → 40 ≤ cs
          → i < suc n
          → slice (a.device_end + i * cs) 40 (content s₁)
            ≡ save_as_bytes complex_type_header
                (cluster_header u cs (link_of cs a.device_end free i))

    -- The buffer keeps the length of a round, and writing it at the end of the device does the round.
    pub linked-Rounded :
        (free : ℕ) (buffer : List ℕ) (a : Allocator f.Double) (s : d.Dev)
        → a.cluster_size ≡ cs
        → a.simultaneously_allocated_clusters ≡ suc n
        → length buffer ≡ round
        → 0 < a.device_end
        → a.device_end ≡ length (content s)
        → a.device_end + round < 2 ^ 64
        → IsChainEnd cs a.device_end free
        → (length (linked a free buffer).0 ≡ round)
          × Rounded free
              (linked a free buffer).1
              a
              s
              (write_state a.device_end (linked a free buffer).0 s)
    linked-Rounded free buffer a s c q b pos at top chain =
        let bs = (linked a free buffer).0 in
        let linked_same : linked a free buffer
            ≡ link_clusters u cs a.device_end (suc n) 0 free buffer =
          rw (c, q) refl in
        let kept =
          length-link_clusters u cs byte size a.device_end (suc n) 0 free buffer (omega arith)
            (IsChainEnd-bound cs a.device_end free (omega arith) chain) in
        let long : length bs ≡ round = ap (λ x. length x.0) linked_same ∙ kept ∙ b in
        let last =
          link_clusters-chain u cs byte size a.device_end n free buffer pos (omega arith) chain in
        let wrote = content-write_state a.device_end bs s (omega arith) in
        (
          long,
          record {
            end = ap (λ x. x.1 + cs) linked_same ∙ last;
            kept = λ p m h.
                ap (slice p m) wrote
                ∙ slice-splice_before a.device_end p m bs (content s) (omega arith) h;
            links = λ i wide h.
                let step = suc-mul i cs in
                let before : suc i * cs ≤ suc n * cs = mul-le-mul_right cs (omega arith) in
                ap (slice (a.device_end + i * cs) 40) wrote
                ∙ slice-splice_within a.device_end (i * cs) 40 bs (content s) (omega arith)
                    (omega arith)
                ∙ ap (λ x. slice (i * cs) 40 x.0) linked_same
                ∙ slice-link_clusters_round u cs byte size a.device_end (omega arith) (suc n) free
                    buffer i wide pos (omega arith) chain (omega arith) h;
          },
        )
