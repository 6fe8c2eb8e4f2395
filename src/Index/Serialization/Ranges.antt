-- ===== src/Index/Serialization/Ranges.antt =====
-- What `Serialize` saves fits in the fields of the descriptors, and their numbers in the header.
use yet_another_storage.Prelude.{
  ℕ, zero, suc, ◌+◌, ◌^◌, ◌≤◌, ◌<◌, ◌≡◌, refl, ap, none, List, [], ◌∷◌, ◌++◌, length, arith,
  Bool-cases, inl, inr, length-append,
}
use yet_another_storage.Trie.{Node, Routes, node, end, route, leaf, routes, find_route}
use yet_another_storage.Bytes.Packed.{Packed}
use yet_another_storage.Index.Serialization.{node_serialization, leaf_serialization}
use yet_another_storage.Index.Serialization.Visits.{
  Visit, below, next_visits, holds_leaf, leafs_of, nodes_of, next_lid, end_lid, all_levels, total,
  total-next_visits, length-le-total, Within, Within-next_visits, Within-zero,
}
use yet_another_storage.Index.Serialization.Levels.{end_lid-le}
use yet_another_storage.Index.Serialization.Cursor.{AllInRange}

-- A trie whose characters are bytes, whose leaves have 64 bits, and in which no two routes of a
-- node have the same character.
unfoldable mutual
  pub IsSerializable : Node → Type 0
  IsSerializable (node rs l) = (l < 2 ^ 64) × AreSerializable rs

  pub AreSerializable : Routes → Type 0
  AreSerializable end = Unit
  AreSerializable (route c n rs) =
      (c < 256) × (find_route c rs ≡ none) × IsSerializable n × AreSerializable rs

-- The visits of a level below the bound.
unfoldable pub AllSerializable : ℕ → List Visit → Type 0
AllSerializable bound [] = Unit
AllSerializable bound (v ∷ vs) =
    IsSerializable v.visited × (v.ch < 256) × (v.parent_id < bound) × AllSerializable bound vs

pub IsSerializable-routes : (n : Node) → IsSerializable n → AreSerializable (routes n)
unfolding IsSerializable
IsSerializable-routes (node rs l) i = i.1

pub IsSerializable-leaf : (n : Node) → IsSerializable n → leaf n < 2 ^ 64
unfolding IsSerializable
IsSerializable-leaf (node rs l) i = i.0

AllSerializable-append :
    (bound : ℕ) (vs ws : List Visit)
    → AllSerializable bound vs
    → AllSerializable bound ws
    → AllSerializable bound (vs ++ ws)
unfolding AllSerializable
AllSerializable-append bound [] ws a b = b
AllSerializable-append bound (v ∷ vs) ws a b =
    (a.0, a.1, a.2, AllSerializable-append bound vs ws a.3 b)

AllSerializable-below :
    (bound : ℕ) (rs : Routes) (id : ℕ) (p : List ℕ)
    → id < bound
    → AreSerializable rs
    → AllSerializable bound (below rs id p)
unfolding AllSerializable IsSerializable
AllSerializable-below bound end id p h a = tt
AllSerializable-below bound (route c n rs) id p h a =
    (a.2, a.0, h, AllSerializable-below bound rs id p h a.3)

pub AllSerializable-next_visits :
    (bound bound' base : ℕ) (vs : List Visit)
    → base + length vs ≤ bound'
    → AllSerializable bound vs
    → AllSerializable bound' (next_visits base vs)
unfolding AllSerializable next_visits
AllSerializable-next_visits bound bound' base [] h a = tt
AllSerializable-next_visits bound bound' base (v ∷ vs) h a =
    AllSerializable-append bound' (below (routes v.visited) base v.path) (next_visits (base + 1) vs)
      (AllSerializable-below bound' (routes v.visited) base v.path (omega arith)
        (IsSerializable-routes v.visited a.0))
      (AllSerializable-next_visits bound bound' (base + 1) vs (omega arith) a.3)

AllInRange-append :
    {H : Type 0} (P : Packed H) (hs ks : List H)
    → AllInRange P hs
    → AllInRange P ks
    → AllInRange P (hs ++ ks)
AllInRange-append P [] ks a b = b
AllInRange-append P (h ∷ hs) ks a b = (a.0, AllInRange-append P hs ks a.1 b)

leafs_of-AllInRange :
    (bound base : ℕ) (vs : List Visit)
    → base + length vs ≤ 2 ^ 64
    → AllSerializable bound vs
    → AllInRange leaf_serialization (leafs_of base vs)
unfolding leafs_of AllSerializable
leafs_of-AllInRange bound base [] h a = tt
leafs_of-AllInRange bound base (v ∷ vs) h a =
    let rest = leafs_of-AllInRange bound (base + 1) vs (omega arith) a.3 in
    elim (Bool-cases (holds_leaf v)) [
      | inl e ↦ rw e ((omega arith, (omega (arith, IsSerializable-leaf v.visited a.0), tt)), rest)
      | inr e ↦ rw e rest
    ]

nodes_of-AllInRange :
    (bound depth lid base : ℕ) (vs : List Visit)
    → depth < 2 ^ 64
    → bound ≤ 2 ^ 64
    → lid ≤ base
    → base + length vs ≤ 2 ^ 64
    → AllSerializable bound vs
    → AllInRange node_serialization (nodes_of depth lid base vs)
unfolding nodes_of AllSerializable
nodes_of-AllInRange bound depth lid base [] d b l h a = tt
nodes_of-AllInRange bound depth lid base (v ∷ vs) d b l h a = elim (Bool-cases (holds_leaf v)) [
  | inl e ↦ rw e (
    (omega arith, (omega arith, (omega arith, (omega arith, (a.1, tt))))),
    nodes_of-AllInRange bound depth (lid + 1) (base + 1) vs d b (omega arith) (omega arith) a.3,
  )
  | inr e ↦ rw e (
    (omega arith, (omega arith, (omega arith, (omega arith, (a.1, tt))))),
    nodes_of-AllInRange bound depth lid (base + 1) vs d b (omega arith) (omega arith) a.3,
  )
]

length-nodes_of :
    (depth lid base : ℕ) (vs : List Visit) → length (nodes_of depth lid base vs) ≡ length vs
unfolding nodes_of
length-nodes_of depth lid base [] = refl
length-nodes_of depth lid base (v ∷ vs) =
    ap suc (length-nodes_of depth (next_lid lid v) (base + 1) vs)

length-leafs_of : (base : ℕ) (vs : List Visit) → length (leafs_of base vs) ≤ length vs
unfolding leafs_of
length-leafs_of base [] = omega arith
length-leafs_of base (v ∷ vs) = elim (Bool-cases (holds_leaf v)) [
  | inl e ↦ rw e (omega (arith, length-leafs_of (base + 1) vs))
  | inr e ↦ rw e (omega (arith, length-leafs_of (base + 1) vs))
]

-- Every node has one descriptor, and a leaf at most one.
pub length-all_levels :
    (fuel depth base : ℕ) (vs : List Visit) (lid : ℕ)
    → Within fuel vs
    → (length (all_levels fuel depth base vs lid).1 ≡ total vs)
      × (length (all_levels fuel depth base vs lid).0 ≤ total vs)
unfolding all_levels
length-all_levels zero depth base [] lid w = unfold total in (refl, omega arith)
length-all_levels zero depth base (v ∷ vs) lid w = absurd (Within-zero v vs w)
length-all_levels (suc fuel) depth base [] lid w = unfold total in (refl, omega arith)
length-all_levels (suc fuel) depth base (v ∷ vs) lid w =
    let here = v ∷ vs in
    let next = next_visits base here in
    let rest = all_levels fuel (depth + 1) (base + length here) next (end_lid lid here) in
    let counted =
      length-all_levels fuel (depth + 1) (base + length here) next (end_lid lid here)
        (Within-next_visits fuel base here w) in
    let sum = total-next_visits base here in
    (
      omega (
        arith,
        counted.0,
        sum,
        length-append (nodes_of depth lid base here) rest.1,
        length-nodes_of depth lid base here,
      ),
      omega (
        arith,
        counted.1,
        sum,
        length-append (leafs_of base here) rest.0,
        length-leafs_of base here,
      ),
    )

pub all_levels-AllInRange :
    (fuel depth base : ℕ) (vs : List Visit) (lid : ℕ)
    → depth ≤ base
    → lid ≤ base
    → base + total vs < 2 ^ 64
    → AllSerializable (base + 1) vs
    → AllInRange leaf_serialization (all_levels fuel depth base vs lid).0
      × AllInRange node_serialization (all_levels fuel depth base vs lid).1
unfolding all_levels
all_levels-AllInRange zero depth base vs lid d l h a = (tt, tt)
all_levels-AllInRange (suc fuel) depth base [] lid d l h a = (tt, tt)
all_levels-AllInRange (suc fuel) depth base (v ∷ vs) lid d l h a =
    let here = v ∷ vs in
    let next = next_visits base here in
    let sum = total-next_visits base here in
    let size = length-le-total here in
    let rest =
      all_levels-AllInRange fuel (depth + 1) (base + length here) next (end_lid lid here)
        (omega arith) (omega (arith, end_lid-le lid here)) (omega arith)
        (AllSerializable-next_visits (base + 1) (base + length here + 1) base here (omega arith)
          a) in
    (
      AllInRange-append leaf_serialization (leafs_of base here) _
          (leafs_of-AllInRange (base + 1) base here (omega arith) a) rest.0,
      AllInRange-append node_serialization (nodes_of depth lid base here) _
          (nodes_of-AllInRange (base + 1) depth lid base here (omega arith) (omega arith) l
            (omega arith) a)
          rest.1,
    )
