-- ===== src/Index/Serialization/Visits.antt =====
-- The breadth-first order of `Serialize` without its counters: the nodes of a level with their
-- paths, and the descriptors that the numbers of the nodes make of them.
use yet_another_storage.Prelude.{
  ℕ, zero, suc, ◌+◌, ◌≤◌, ◌≡◌, refl, Bool, List, [], ◌∷◌, ◌++◌, length, if◌then◌else◌, arith,
}
use yet_another_storage.Trie.{Node, Routes, node, end, route, leaf, routes, is_exist_leaf}
use yet_another_storage.Index.Serialization.{
  id_bits, non_exist_id, NodeSerialization, LeafSerialization, NodeDescriptor,
}
use yet_another_storage.Index.Serialization.Peek.{snoc}
use yet_another_storage.Index.Serialization.Serialize.{Serialized, height, height_routes}

-- A node, its path, its parent's number and path, and the character that leads to it.
pub record Visit : Type 0 where
  pub visited : Node
  pub path : List ℕ
  pub parent_id : ℕ
  pub parent_path : List ℕ
  pub ch : ℕ

abbrev pub below : Routes → ℕ → List ℕ → List Visit
below end id p = []
below (route c n rs) id p =
    record { visited = n; path = snoc p c; parent_id = id; parent_path = p; ch = c } ∷ below rs id p

-- The next level, where the nodes of a level are numbered from `base` on.
unfoldable pub next_visits : ℕ → List Visit → List Visit
next_visits base [] = []
next_visits base (v ∷ vs) = below (routes v.visited) base v.path ++ next_visits (base + 1) vs

unfoldable pub descriptors : ℕ → List Visit → List NodeDescriptor
descriptors base [] = []
descriptors base (v ∷ vs) =
    record { node = v.visited; node_id = base; parent_node_id = v.parent_id; parent_node_ch = v.ch }
    ∷ descriptors (base + 1) vs

-- The leaves of a level, and its nodes, where the leaves are numbered from `lid` on.
abbrev pub holds_leaf : Visit → Bool
holds_leaf v = is_exist_leaf id_bits (leaf v.visited)

unfoldable pub leafs_of : ℕ → List Visit → List LeafSerialization
leafs_of base [] = []
leafs_of base (v ∷ vs) =
    if holds_leaf v
    then record { node_id = base; leaf = leaf v.visited } ∷ leafs_of (base + 1) vs
    else leafs_of (base + 1) vs

abbrev pub node_of : ℕ → ℕ → ℕ → Visit → NodeSerialization
node_of depth lid base v = record {
  node_id = base;
  parent_node_id = v.parent_id;
  depth_level = depth;
  leaf_id = if holds_leaf v then lid else non_exist_id;
  parent_node_ch = v.ch;
}

abbrev pub next_lid : ℕ → Visit → ℕ
next_lid lid v = if holds_leaf v then lid + 1 else lid

unfoldable pub nodes_of : ℕ → ℕ → ℕ → List Visit → List NodeSerialization
nodes_of depth lid base [] = []
nodes_of depth lid base (v ∷ vs) =
    node_of depth lid base v ∷ nodes_of depth (next_lid lid v) (base + 1) vs

unfoldable pub end_lid : ℕ → List Visit → ℕ
end_lid lid [] = lid
end_lid lid (v ∷ vs) = end_lid (next_lid lid v) vs

-- The levels from one on.
unfoldable pub all_levels : ℕ → ℕ → ℕ → List Visit → ℕ → Serialized
all_levels zero depth base vs lid = ([], [])
all_levels (suc fuel) depth base [] lid = ([], [])
all_levels (suc fuel) depth base (v ∷ vs) lid =
    let rest =
      all_levels fuel (depth + 1) (base + length (v ∷ vs)) (next_visits base (v ∷ vs))
        (end_lid lid (v ∷ vs)) in
    (leafs_of base (v ∷ vs) ++ rest.0, nodes_of depth lid base (v ∷ vs) ++ rest.1)

-- The number of nodes.
unfoldable mutual
  pub size : Node → ℕ
  size (node rs l) = suc (size_routes rs)

  pub size_routes : Routes → ℕ
  size_routes end = 0
  size_routes (route ch n rs) = size n + size_routes rs

unfoldable pub total : List Visit → ℕ
total [] = 0
total (v ∷ vs) = size v.visited + total vs

total-append : (vs ws : List Visit) → total (vs ++ ws) ≡ total vs + total ws
unfolding total
total-append [] ws = omega arith
total-append (v ∷ vs) ws = omega (arith, total-append vs ws)

total-below : (rs : Routes) (id : ℕ) (p : List ℕ) → total (below rs id p) ≡ size_routes rs
unfolding total size_routes
total-below end id p = refl
total-below (route c n rs) id p = omega (arith, total-below rs id p)

pub size-routes : (n : Node) → size n ≡ suc (size_routes (routes n))
unfolding size
size-routes (node rs l) = refl

pub length-le-total : (vs : List Visit) → length vs ≤ total vs
unfolding total
length-le-total [] = omega arith
length-le-total (v ∷ vs) = omega (arith, size-routes v.visited, length-le-total vs)

pub total-next_visits :
    (base : ℕ) (vs : List Visit) → length vs + total (next_visits base vs) ≡ total vs
unfolding total next_visits
total-next_visits base [] = omega arith
total-next_visits base (v ∷ vs) = omega (
  arith,
  total-append (below (routes v.visited) base v.path) (next_visits (base + 1) vs),
  total-below (routes v.visited) base v.path,
  size-routes v.visited,
  total-next_visits (base + 1) vs,
)

-- No subtree is higher than the bound.
unfoldable pub Within : ℕ → List Visit → Type 0
Within h [] = Unit
Within h (v ∷ vs) = (height v.visited ≤ h) × Within h vs

Within-append : (h : ℕ) (vs ws : List Visit) → Within h vs → Within h ws → Within h (vs ++ ws)
unfolding Within
Within-append h [] ws a b = b
Within-append h (v ∷ vs) ws a b = (a.0, Within-append h vs ws a.1 b)

Within-below :
    (h : ℕ) (rs : Routes) (id : ℕ) (p : List ℕ) → height_routes rs ≤ h → Within h (below rs id p)
unfolding Within height_routes
Within-below h end id p a = tt
Within-below h (route c n rs) id p a = (omega arith, Within-below h rs id p (omega arith))

pub height-routes : (n : Node) → height n ≡ suc (height_routes (routes n))
unfolding height
height-routes (node rs l) = refl

pub Within-next_visits :
    (h base : ℕ) (vs : List Visit) → Within (suc h) vs → Within h (next_visits base vs)
unfolding Within next_visits
Within-next_visits h base [] w = tt
Within-next_visits h base (v ∷ vs) w =
    Within-append h (below (routes v.visited) base v.path) (next_visits (base + 1) vs)
      (Within-below h (routes v.visited) base v.path (omega (arith, w.0, height-routes v.visited)))
      (Within-next_visits h (base + 1) vs w.1)

-- A level with nothing left to go down to is empty.
pub Within-zero : (v : Visit) (vs : List Visit) → Within 0 (v ∷ vs) → ⊥
unfolding Within
Within-zero v vs w = omega (arith, w.0, height-routes v.visited)
