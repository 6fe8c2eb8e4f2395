-- ===== src/Tests/Growing.antt =====
-- A concrete volume that is made longer.
use yet_another_storage.Prelude.{ℕ, List, replicate}
use yet_another_storage.Allocator.{Allocator}

-- Three clusters of 64 bytes are asked for, two at a time.
abbrev small : Allocator ℕ
small = record {
  device_end = 124;
  cluster_size = 64;
  simultaneously_allocated_clusters = 2;
  last_allocated_clusters_count = 3;
}

abbrev start : List ℕ
start = replicate 124 0
