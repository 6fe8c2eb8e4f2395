-- ===== src/Storage/Mounts.antt =====
-- What `addNewMountPoint` of Storage.hpp keeps of the storage.
use yet_another_storage.Prelude.{
  ℕ, zero, suc, ◌-◌, ◌%◌, ◌^◌, ◌≤◌, ◌<◌, ◌≡◌, refl, ◌∙◌, subst, false, some, List, [], ◌∷◌, ◌++◌,
  length, set, get_elem?, ltb, ◌==◌, arith, Bool-cases, inl, inr, ◌⊎◌, length-append, length-set,
}
use yet_another_storage.Exec.{ok}
use yet_another_storage.Trie.{is_exist_leaf, non_exist_leaf}
use yet_another_storage.Trie.Lookup
use yet_another_storage.Trie.Lookup.{key_eq}
use yet_another_storage.Index
use yet_another_storage.Index.{InvertedIndex}
use yet_another_storage.Volume.{succeeded}
use yet_another_storage.Storage.{
  MountPoint, VolumeGroup, Storage, group_bits, insert_mount, add_new_mount_point,
}

-- No priority in the group is below `lo`, and none is below the one before, where the code compares
-- the priorities as `uint32_t`: a negative one is above all others.
unfoldable pub SortedFrom : ℕ → VolumeGroup → Type 0
SortedFrom lo [] = Unit
SortedFrom lo (m ∷ group) = (lo ≤ m.priority) × SortedFrom m.priority group

insert_mount-SortedFrom :
    (lo : ℕ) (m : MountPoint) (group : VolumeGroup)
    → lo ≤ m.priority
    → SortedFrom lo group
    → SortedFrom lo (insert_mount m group)
unfolding insert_mount SortedFrom
insert_mount-SortedFrom lo m [] h s = (h, tt)
insert_mount-SortedFrom lo m (n ∷ group) h s = elim (Bool-cases (ltb n.priority m.priority)) [
  | inl e ↦ rw e (s.0, insert_mount-SortedFrom n.priority m group (ground arith) s.1)
  | inr e ↦ rw e (h, (ground arith, s.1))
]

-- All groups are sorted.
unfoldable pub AllSorted : List VolumeGroup → Type 0
AllSorted [] = Unit
AllSorted (group ∷ groups) = SortedFrom 0 group × AllSorted groups

AllSorted-append :
    (m : MountPoint) (groups : List VolumeGroup)
    → AllSorted groups
    → AllSorted (groups ++ ((m ∷ []) ∷ []))
unfolding AllSorted SortedFrom
AllSorted-append m [] s = ((omega arith, tt), tt)
AllSorted-append m (group ∷ groups) s = (s.0, AllSorted-append m groups s.1)

AllSorted-set :
    (m : MountPoint) (i : ℕ) (groups : List VolumeGroup) (group : VolumeGroup)
    → get_elem? groups i ≡ some group
    → AllSorted groups
    → AllSorted (set groups i (insert_mount m group))
unfolding AllSorted
AllSorted-set m i [] group e s = s
AllSorted-set m zero (g ∷ groups) group e s =
    let same : g ≡ group = cc in
    (insert_mount-SortedFrom 0 m group (omega arith) (subst (SortedFrom 0) same s.0), s.1)
AllSorted-set m (suc i) (g ∷ groups) group e s = (s.0, AllSorted-set m i groups group e s.1)

pub get_elem?-lt :
    (i : ℕ) (groups : List VolumeGroup)
    → i < length groups
    → (g : VolumeGroup) × (get_elem? groups i ≡ some g)
get_elem?-lt i [] h = absurd (omega arith)
get_elem?-lt zero (g ∷ groups) h = (g, refl)
get_elem?-lt (suc i) (g ∷ groups) h = get_elem?-lt i groups (omega arith)

-- Every leaf of the index is a group's number, the numbers fit in 32 bits, and every group is
-- sorted by priority, compared as `uint32_t`.
pub record IsWellFormed (s : Storage) : Type 0 where
  pub numbered :
      (key : List ℕ)
      → (Index.get group_bits key s.virtual_storage_index ≡ non_exist_leaf group_bits)
        ⊎ (Index.get group_bits key s.virtual_storage_index < length s.virtual_storage)
  pub sorted : AllSorted s.virtual_storage

get_insert :
    (k j : List ℕ) (l : ℕ) (x : InvertedIndex)
    → (Index.get group_bits j (Index.insert group_bits k l x).0 ≡ l)
      ⊎ (Index.get group_bits j (Index.insert group_bits k l x).0 ≡ Index.get group_bits j x)
unfolding Index.get Index.insert
get_insert [] j l x = inr refl
get_insert (c ∷ k) [] l x = inr refl
get_insert (c ∷ k) (d ∷ j) l x =
    ground (arith, Lookup.get-insert group_bits (c ∷ k) (d ∷ j) l x.engine)

-- In a well-formed storage with fewer than 2^32 - 1 groups, `addNewMountPoint` always succeeds,
-- stays within the groups, and leaves the storage well-formed: every leaf of its index is the number
-- of a group, and its groups stay sorted by the priorities read as `uint32_t`, as the code compares
-- them, which is their own order where none is negative.
pub add_new_mount_point-IsWellFormed :
    (m : MountPoint) (catalog : List ℕ) (s : Storage)
    → IsWellFormed s
    → length s.virtual_storage < 2 ^ 32 - 1
    → (s' : Storage) × (add_new_mount_point m catalog s ≡ (ok succeeded, s')) × IsWellFormed s'
unfolding add_new_mount_point is_exist_leaf
add_new_mount_point-IsWellFormed m catalog s w room = elim (w.numbered catalog) [
  | inl e ↦
      let id = length s.virtual_storage % 2 ^ 32 in
      let added = length-append s.virtual_storage ((m ∷ []) ∷ []) in
      let s' : Storage = record {
        virtual_storage = s.virtual_storage ++ ((m ∷ []) ∷ []);
        virtual_storage_index = (Index.insert group_bits catalog id s.virtual_storage_index).0;
      } in
      (
        s',
        rw e refl,
        record {
          numbered = λ key. elim (get_insert catalog key id s.virtual_storage_index) [
            | inl new ↦ inr (omega arith)
            | inr old ↦ elim (w.numbered key) [ inl n ↦ inl (old ∙ n) | inr n ↦ inr (omega arith) ]
          ];
          sorted = AllSorted-append m s.virtual_storage w.sorted;
        },
      )
  | inr h ↦
      let id = Index.get group_bits catalog s.virtual_storage_index in
      let (g, found) = get_elem?-lt id s.virtual_storage h in
      let s' = record s { virtual_storage = set s.virtual_storage id (insert_mount m g) } in
      let exists : (id == 2 ^ 32 - 1) ≡ false = ground arith in
      let known : ltb (length s.virtual_storage) id ≡ false = ground arith in
      (
        s',
        rw exists (rw known (rw found refl)),
        record {
          numbered =
              λ key. rw (length-set s.virtual_storage id (insert_mount m g)) (w.numbered key);
          sorted = AllSorted-set m id s.virtual_storage g found w.sorted;
        },
      )
]
