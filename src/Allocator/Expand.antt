-- ===== src/Allocator/Expand.antt =====
-- `ExpandPV` ends, and returns the last of the clusters that it adds.
use yet_another_storage.Prelude.{ℕ, suc, ◌+◌, ◌*◌, ◌^◌, ◌≤◌, ◌<◌, ◌≡◌, ◌⊎◌, List, length}
use yet_another_storage.Exec.{Result, ok}
use yet_another_storage.Device.{Device, IsReliable}
use yet_another_storage.Allocator.{DoubleOps, Allocator, cluster_header}
use yet_another_storage.Allocator.Links.{link_of}
use yet_another_storage.Allocator.Rounds
use yet_another_storage.Bytes.Slice.{slice}
use yet_another_storage.Bytes.Packed.{save_as_bytes}
use yet_another_storage.Layout.{complex_type_header}

module _ (u cs : ℕ) (byte : u < 256) (size : cs < 2 ^ 64) where
  module _ (d : Device) (r : IsReliable d) (f : DoubleOps) (n : ℕ) where
    open r use {content, write_state, write_lem}

    abbrev pub round : ℕ
    round = Rounds.round u cs byte size d r f n

    abbrev pub linked : Allocator f.Double → ℕ → List ℕ → List ℕ × ℕ
    linked = Rounds.linked u cs byte size d r f n

    abbrev pub Rounded : ℕ → ℕ → Allocator f.Double → d.Dev → d.Dev → Type 0
    Rounded = Rounds.Rounded u cs byte size d r f n

    -- What the loop does from the state `s` on: the clusters of some rounds stand behind the old end
    -- of the device, each one begins with the header that links it, and what stood before them stays.
    pub record Expanded (allocate written free : ℕ) (a : Allocator f.Double) (s : d.Dev)
        (outcome : Result (ℕ × Allocator f.Double) × d.Dev) : Type 0 where
      pub rounds : ℕ
      pub last : ℕ
      pub device : d.Dev
      pub returns :
          outcome ≡ (ok (last, record a { device_end = a.device_end + rounds * round }), device)
      pub grown : length (content device) ≡ a.device_end + rounds * round
      pub last_link : last ≡ link_of cs a.device_end free (rounds * suc n)
      pub kept :
          (q m : ℕ) → q + m ≤ a.device_end → slice q m (content device) ≡ slice q m (content s)
      pub links :
          (i : ℕ)
          → 40 ≤ cs
          → i < rounds * suc n
          → slice (a.device_end + i * cs) 40 (content device)
            ≡ save_as_bytes complex_type_header
                (cluster_header u cs (link_of cs a.device_end free i))
      pub enough : allocate ≤ written + rounds * suc n
      pub few : (rounds ≡ 0) ⊎ (written + rounds * suc n < allocate + suc n)
