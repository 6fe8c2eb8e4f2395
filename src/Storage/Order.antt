-- ===== src/Storage/Order.antt =====
-- The order in which the operations of Storage.hpp ask the volumes of a group.
use yet_another_storage.Prelude.{
  ℕ, zero, suc, ◌≤◌, ◌≡◌, ◌≢◌, ◌↔◌, refl, length, true, false, some, List, [], ◌∷◌, ◌++◌, get_elem?,
  take, arith, Bool-cases, inl, inr, subst,
}
use yet_another_storage.Exec.{Result, ok}
use yet_another_storage.Trie.{is_exist_leaf, non_exist_leaf}
use yet_another_storage.Trie
use yet_another_storage.Trie.Paths.{has_path, find_max_sub_key-longest_iff}
use yet_another_storage.Index
use yet_another_storage.Volume.{Expected, value, unexpected}
use yet_another_storage.Storage.{
  MountPoint, VolumeGroup, Storage, group_bits, reversed, no_catalog, get_volume_group_range,
}
use yet_another_storage.Storage.Mounts.{SortedFrom, AllSorted, IsWellFormed, get_elem?-lt}

-- Every priority, read as `uint32_t`, is at least, or at most, the bound.
unfoldable pub AllAbove : ℕ → VolumeGroup → Type 0
AllAbove lo [] = Unit
AllAbove lo (m ∷ group) = (lo ≤ m.priority) × AllAbove lo group

unfoldable pub AllBelow : ℕ → VolumeGroup → Type 0
AllBelow hi [] = Unit
AllBelow hi (m ∷ group) = (m.priority ≤ hi) × AllBelow hi group

-- No mount point has a greater priority, read as `uint32_t`, than one before it.
unfoldable pub Descending : VolumeGroup → Type 0
Descending [] = Unit
Descending (m ∷ group) = AllBelow m.priority group × Descending group

AllAbove-append :
    (lo : ℕ) (group : VolumeGroup) (m : MountPoint)
    → AllAbove lo group
    → lo ≤ m.priority
    → AllAbove lo (group ++ (m ∷ []))
unfolding AllAbove
AllAbove-append lo [] m a h = (h, tt)
AllAbove-append lo (n ∷ group) m a h = (a.0, AllAbove-append lo group m a.1 h)

AllAbove-le : (lo hi : ℕ) (group : VolumeGroup) → lo ≤ hi → AllAbove hi group → AllAbove lo group
unfolding AllAbove
AllAbove-le lo hi [] h a = tt
AllAbove-le lo hi (n ∷ group) h a = (omega (arith, a.0), AllAbove-le lo hi group h a.1)

AllAbove-reversed :
    (lo : ℕ) (group : VolumeGroup) → SortedFrom lo group → AllAbove lo (reversed group)
unfolding SortedFrom reversed AllAbove
AllAbove-reversed lo [] s = tt
AllAbove-reversed lo (m ∷ group) s =
    AllAbove-append lo (reversed group) m
      (AllAbove-le lo m.priority (reversed group) s.0 (AllAbove-reversed m.priority group s.1)) s.0

AllBelow-append :
    (hi : ℕ) (group : VolumeGroup) (m : MountPoint)
    → AllBelow hi group
    → m.priority ≤ hi
    → AllBelow hi (group ++ (m ∷ []))
unfolding AllBelow
AllBelow-append hi [] m a h = (h, tt)
AllBelow-append hi (n ∷ group) m a h = (a.0, AllBelow-append hi group m a.1 h)

Descending-append :
    (group : VolumeGroup) (m : MountPoint)
    → Descending group
    → AllAbove m.priority group
    → Descending (group ++ (m ∷ []))
unfolding Descending AllAbove AllBelow
Descending-append [] m s a = (tt, tt)
Descending-append (n ∷ group) m s a =
    (AllBelow-append n.priority group m s.0 a.0, Descending-append group m s.1 a.1)

Descending-reversed :
    (lo : ℕ) (group : VolumeGroup) → SortedFrom lo group → Descending (reversed group)
unfolding SortedFrom reversed Descending
Descending-reversed lo [] s = tt
Descending-reversed lo (m ∷ group) s =
    Descending-append (reversed group) m (Descending-reversed m.priority group s.1)
      (AllAbove-reversed m.priority group s.1)

AllSorted-get_elem? :
    (groups : List VolumeGroup) (i : ℕ) (group : VolumeGroup)
    → AllSorted groups
    → get_elem? groups i ≡ some group
    → SortedFrom 0 group
unfolding AllSorted
AllSorted-get_elem? [] i group s e = cc
AllSorted-get_elem? (g ∷ groups) zero group s e =
    let same : g ≡ group = cc in subst (SortedFrom 0) same s.0
AllSorted-get_elem? (g ∷ groups) (suc i) group s e = AllSorted-get_elem? groups i group s.1 e

none-absent : is_exist_leaf group_bits (non_exist_leaf group_bits) ≡ false
unfolding is_exist_leaf
none-absent = refl

-- The longest prefix of the key whose path is in the storage's index has `n` characters; the index
-- takes no empty key.
abbrev pub IsLongestPath : ℕ → Storage → List ℕ → Type 0
IsLongestPath n s key =
    (m : ℕ)
    → (m ≤ n) ↔ ((m ≤ length key) × (has_path (take m key) s.virtual_storage_index.engine ≡ true))

-- The outcomes of `getVolumeGroupRange`: no group is mounted under the longest prefix of the key
-- that has a path, or one is, and its mount points, all of them and in the reversed order of the
-- group, come with descending priorities, read as `uint32_t`.
pub data Ranged (s : Storage) (key : List ℕ) : Result (Expected VolumeGroup) → Type 0 where
  missing :
      {r : Result (Expected VolumeGroup)} (n : ℕ)
      → IsLongestPath n s key
      → Index.get group_bits (take n key) s.virtual_storage_index ≡ non_exist_leaf group_bits
      → r ≡ ok (unexpected no_catalog)
      → Ranged s key r
  ranged :
      {r : Result (Expected VolumeGroup)} (n id : ℕ) (group : VolumeGroup)
      → IsLongestPath n s key
      → Index.get group_bits (take n key) s.virtual_storage_index ≡ id
      → id ≢ non_exist_leaf group_bits
      → get_elem? s.virtual_storage id ≡ some group
      → r ≡ ok (value (reversed group))
      → Descending (reversed group)
      → Ranged s key r

find_max_sub_key-IsLongestPath :
    (s : Storage) (key : List ℕ)
    → IsLongestPath (Index.find_max_sub_key key s.virtual_storage_index) s key
unfolding Index.find_max_sub_key
find_max_sub_key-IsLongestPath s [] m =
    let longest = find_max_sub_key-longest_iff [] m s.virtual_storage_index.engine in
    unfold Trie.find_max_sub_key in longest
find_max_sub_key-IsLongestPath s (c ∷ k) m =
    find_max_sub_key-longest_iff (c ∷ k) m s.virtual_storage_index.engine

-- In a well-formed storage `getVolumeGroupRange` never reaches beyond the groups. It takes the
-- longest prefix of the key whose path is in the index: if no group is mounted under it, there is no
-- range; else the range is that group, reversed, and its mount points come with descending
-- priorities, read as `uint32_t`.
pub get_volume_group_range-Ranged :
    (s : Storage) (key : List ℕ) → IsWellFormed s → Ranged s key (get_volume_group_range s key)
unfolding get_volume_group_range
get_volume_group_range-Ranged s key w =
    let n = Index.find_max_sub_key key s.virtual_storage_index in
    let longest = find_max_sub_key-IsLongestPath s key in
    let id = Index.get group_bits (take n key) s.virtual_storage_index in
    elim (w.numbered (take n key)) [
      | inl e ↦ missing n longest e (rw (e, none-absent) refl)
      | inr l ↦
          let (g, at) = get_elem?-lt id s.virtual_storage l in
          elim (Bool-cases (is_exist_leaf group_bits id)) [
            | inr e ↦ missing n longest (unfold is_exist_leaf in ground arith) (rw e refl)
            | inl e ↦
                ranged n id g longest refl (unfold is_exist_leaf in ground arith) at
                  (rw e (rw at refl))
                  (Descending-reversed 0 g (AllSorted-get_elem? s.virtual_storage id g w.sorted at))
          ]
    ]
