-- ===== src/Index/Serialization/Levels.antt =====
-- `Serialize` emits the nodes of the trie level by level, and ends.
use yet_another_storage.Prelude.{
  ℕ, zero, suc, ◌+◌, ◌-◌, ◌^◌, ◌≤◌, ◌<◌, ◌≡◌, refl, ap, List, [], ◌∷◌, ◌++◌, length, arith,
  length-append, Bool-cases, inl, inr,
}
use yet_another_storage.Exec.{ok}
use yet_another_storage.Trie.{Routes, end, route, routes}
use yet_another_storage.Index.Serialization.{next_id}
use yet_another_storage.Index.Serialization.Serialize.{
  emplace_routes, Level, serialize_level, serialize_node, serialize_levels, prepend,
}
use yet_another_storage.Index.Serialization.Visits.{
  Visit, below, next_visits, descriptors, holds_leaf, leafs_of, nodes_of, end_lid, all_levels,
  total, total-next_visits, length-le-total, Within, Within-next_visits, Within-zero,
}

descriptors-append :
    (base : ℕ) (vs ws : List Visit)
    → descriptors base (vs ++ ws) ≡ descriptors base vs ++ descriptors (base + length vs) ws
unfolding descriptors
descriptors-append base [] ws = ap (λ b. descriptors b ws) (omega arith)
descriptors-append base (v ∷ vs) ws =
    let e : base + 1 + length vs ≡ base + suc (length vs) = omega arith in
    rw (descriptors-append (base + 1) vs ws) (rw e refl)

emplace_routes-below :
    (rs : Routes) (id n : ℕ) (p : List ℕ)
    → n + length (below rs id p) < 2 ^ 64
    → emplace_routes rs id n ≡ (descriptors n (below rs id p), n + length (below rs id p))
unfolding emplace_routes descriptors
emplace_routes-below end id n p h = ap (λ m. ([], m)) (omega arith)
emplace_routes-below (route c m rs) id n p h =
    let e : next_id n ≡ n + 1 = omega arith in
    rw (e, emplace_routes-below rs id (n + 1) p (omega arith))
      (ap
        (λ k. (
          record { node = m; node_id = n; parent_node_id = id; parent_node_ch = c }
              ∷ descriptors (n + 1) (below rs id p),
          k,
        ))
        (omega arith))

-- What the loop over a level adds, without its counters.
abbrev level_of : ℕ → ℕ → List Visit → ℕ → ℕ → Level
level_of depth base vs id lid = record {
  serialized_leafs = leafs_of base vs;
  serialized_nodes = nodes_of depth lid base vs;
  next_level_nodes = descriptors id (next_visits base vs);
  current_node_id = id + length (next_visits base vs);
  current_leaf_id = end_lid lid vs;
}

serialize_level-descriptors :
    (depth base : ℕ) (vs : List Visit) (id lid : ℕ)
    → id + length (next_visits base vs) < 2 ^ 64
    → lid + length vs < 2 ^ 64
    → serialize_level depth (descriptors base vs) id lid ≡ level_of depth base vs id lid
unfolding serialize_level serialize_node descriptors leafs_of nodes_of next_visits end_lid
serialize_level-descriptors depth base [] id lid h k =
    let e : id + 0 ≡ id = omega arith in rw e refl
serialize_level-descriptors depth base (v ∷ vs) id lid h k =
    let here = below (routes v.visited) base v.path in
    let next = next_visits (base + 1) vs in
    let split = length-append here next in
    let counted = emplace_routes-below (routes v.visited) base id v.path (omega (arith, split)) in
    let sum : id + (length here + length next) ≡ id + length here + length next = omega arith in
    elim (Bool-cases (holds_leaf v)) [
      | inl e ↦
          let n : next_id lid ≡ lid + 1 = omega arith in
          let rest =
            serialize_level-descriptors depth (base + 1) vs (id + length here) (lid + 1)
              (omega (arith, split)) (omega arith) in
          rw (counted, e) (rw n (rw rest (rw (descriptors-append id here next, split, sum) refl)))
      | inr e ↦
          let rest =
            serialize_level-descriptors depth (base + 1) vs (id + length here) lid
              (omega (arith, split)) (omega arith) in
          rw (counted, e) (rw rest (rw (descriptors-append id here next, split, sum) refl))
    ]

pub end_lid-le : (lid : ℕ) (vs : List Visit) → end_lid lid vs ≤ lid + length vs
unfolding end_lid
end_lid-le lid [] = omega arith
end_lid-le lid (v ∷ vs) = elim (Bool-cases (holds_leaf v)) [
  | inl e ↦ rw e (omega (arith, end_lid-le (lid + 1) vs))
  | inr e ↦ rw e (omega (arith, end_lid-le lid vs))
]

serialize_levels-cons :
    (fuel depth base : ℕ) (v : Visit) (vs : List Visit) (id lid : ℕ)
    → serialize_levels (suc fuel) depth (descriptors base (v ∷ vs)) id lid ≡ (
        let level = serialize_level depth (descriptors base (v ∷ vs)) id lid in
        prepend level (
          serialize_levels fuel
            (next_id depth)
            level.next_level_nodes
            level.current_node_id
            level.current_leaf_id))
unfolding serialize_levels descriptors
serialize_levels-cons fuel depth base v vs id lid = refl

-- The loop over the levels returns what they add, where no id wraps and the fuel is enough.
pub serialize_levels-descriptors :
    (fuel depth base : ℕ) (vs : List Visit) (lid : ℕ)
    → Within fuel vs
    → depth ≤ base
    → lid ≤ base
    → base + total vs < 2 ^ 64 - 1
    → serialize_levels fuel depth (descriptors base vs) (base + length vs) lid
      ≡ ok (all_levels fuel depth base vs lid)
unfolding all_levels
serialize_levels-descriptors zero depth base [] lid w d l h =
    unfold descriptors serialize_levels in refl
serialize_levels-descriptors zero depth base (v ∷ vs) lid w d l h = absurd (Within-zero v vs w)
serialize_levels-descriptors (suc fuel) depth base [] lid w d l h =
    unfold descriptors serialize_levels in refl
serialize_levels-descriptors (suc fuel) depth base (v ∷ vs) lid w d l h =
    let here = v ∷ vs in
    let next = next_visits base here in
    let sum = total-next_visits base here in
    let level =
      serialize_level-descriptors depth base here (base + length here) lid
        (omega (arith, length-le-total next)) (omega (arith, length-le-total here)) in
    let deeper : next_id depth ≡ depth + 1 = omega arith in
    let rest =
      serialize_levels-descriptors fuel (depth + 1) (base + length here) next (end_lid lid here)
        (Within-next_visits fuel base here w) (omega arith) (omega (arith, end_lid-le lid here))
        (omega arith) in
    rw (serialize_levels-cons fuel depth base v vs (base + length here) lid)
      (rw level (rw (deeper, rest) refl))
