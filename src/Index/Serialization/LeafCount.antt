-- ===== src/Index/Serialization/LeafCount.antt =====
-- The number of leaves that `Serialize` of AhoCorasickSerializationHelper.hpp saves.
use yet_another_storage.Prelude.{
  ℕ, zero, suc, ◌+◌, ◌≡◌, refl, List, [], ◌∷◌, ◌++◌, length, if◌then◌else◌, arith, length-append,
  Bool-cases, inl, inr,
}
use yet_another_storage.Trie.{Node, Routes, node, end, route, leaf, routes, is_exist_leaf}
use yet_another_storage.Index.Serialization.{id_bits}
use yet_another_storage.Index.Serialization.Visits.{
  Visit, below, next_visits, leafs_of, holds_leaf, end_lid, all_levels, Within, Within-next_visits,
  Within-zero,
}

-- The number of nodes of a trie that hold a leaf.
unfoldable mutual
  pub leaf_count : Node → ℕ
  leaf_count (node rs l) =
      if is_exist_leaf id_bits l then suc (leaf_count_routes rs) else leaf_count_routes rs

  pub leaf_count_routes : Routes → ℕ
  leaf_count_routes end = 0
  leaf_count_routes (route ch n rs) = leaf_count n + leaf_count_routes rs

unfoldable pub total_leafs : List Visit → ℕ
total_leafs [] = 0
total_leafs (v ∷ vs) = leaf_count v.visited + total_leafs vs

total_leafs-append : (vs ws : List Visit) → total_leafs (vs ++ ws) ≡ total_leafs vs + total_leafs ws
unfolding total_leafs
total_leafs-append [] ws = omega arith
total_leafs-append (v ∷ vs) ws = omega (arith, total_leafs-append vs ws)

total_leafs-below :
    (rs : Routes) (id : ℕ) (p : List ℕ) → total_leafs (below rs id p) ≡ leaf_count_routes rs
unfolding total_leafs leaf_count_routes
total_leafs-below end id p = refl
total_leafs-below (route c n rs) id p = omega (arith, total_leafs-below rs id p)

leaf_count-routes :
    (n : Node)
    → leaf_count n ≡ (
        if is_exist_leaf id_bits (leaf n)
        then suc (leaf_count_routes (routes n))
        else leaf_count_routes (routes n))
unfolding leaf_count
leaf_count-routes (node rs l) = refl

-- The leaves of a level and those below it are all there are.
total_leafs-next_visits :
    (base b : ℕ) (vs : List Visit)
    → length (leafs_of b vs) + total_leafs (next_visits base vs) ≡ total_leafs vs
unfolding total_leafs next_visits leafs_of
total_leafs-next_visits base b [] = omega arith
total_leafs-next_visits base b (v ∷ vs) =
    let split =
      total_leafs-append (below (routes v.visited) base v.path) (next_visits (base + 1) vs) in
    let under = total_leafs-below (routes v.visited) base v.path in
    let count = leaf_count-routes v.visited in
    let rest = total_leafs-next_visits (base + 1) (b + 1) vs in
    elim (Bool-cases (holds_leaf v)) [
      | inl e ↦
          let here : leaf_count v.visited ≡ suc (leaf_count_routes (routes v.visited)) =
            ground arith in
          rw e (omega arith)
      | inr e ↦
          let here : leaf_count v.visited ≡ leaf_count_routes (routes v.visited) = ground arith in
          rw e (omega arith)
    ]

-- Every leaf of the trie has one descriptor.
pub length-all_levels_leafs :
    (fuel depth base : ℕ) (vs : List Visit) (lid : ℕ)
    → Within fuel vs
    → length (all_levels fuel depth base vs lid).0 ≡ total_leafs vs
unfolding all_levels
length-all_levels_leafs zero depth base [] lid w = unfold total_leafs in refl
length-all_levels_leafs zero depth base (v ∷ vs) lid w = absurd (Within-zero v vs w)
length-all_levels_leafs (suc fuel) depth base [] lid w = unfold total_leafs in refl
length-all_levels_leafs (suc fuel) depth base (v ∷ vs) lid w =
    let here = v ∷ vs in
    let next = next_visits base here in
    let rest = all_levels fuel (depth + 1) (base + length here) next (end_lid lid here) in
    omega (
      arith,
      length-all_levels_leafs fuel (depth + 1) (base + length here) next (end_lid lid here)
          (Within-next_visits fuel base here w),
      total_leafs-next_visits base base here,
      length-append (leafs_of base here) rest.0,
    )
