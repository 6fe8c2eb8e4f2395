-- ===== src/Trie.antt =====
-- include/storage/lib/inverted_index/AhoCorasickEngine.hpp and leaf_type_traits.hpp: the trie
-- that maps keys to leaves. A node owns its routes, so the trie is a tree. `routes_` is an
-- unordered map; the order of the routes here is the order of their creation, which no
-- operation of the engine depends on.
pub mod Lookup
pub mod Paths
use yet_another_storage.Prelude.{
  ℕ, ◌+◌, ◌-◌, ◌^◌, Bool, true, false, not, Option, none, some, List, [], ◌∷◌, ◌==◌, if◌then◌else◌,
}

-- Characters and leaves are the numbers that stand for them. A leaf has `bits` bits.
mutual
  pub data Node : Type 0 where
    node : Routes → ℕ → Node

  pub data Routes : Type 0 where
    end : Routes
    route : ℕ → Node → Routes → Routes

-- `leaf_type_traits::NonExistValue`: the greatest value of the leaf type.
unfoldable pub non_exist_leaf : ℕ → ℕ
non_exist_leaf bits = 2 ^ bits - 1

-- `leaf_type_traits::IsExistValue`
unfoldable pub is_exist_leaf : ℕ → ℕ → Bool
unfolding non_exist_leaf
is_exist_leaf bits value = not (value == non_exist_leaf bits)

abbrev pub leaf : Node → ℕ
leaf (node rs l) = l

abbrev pub routes : Node → Routes
routes (node rs l) = rs

-- `routes_.find`
unfoldable pub find_route : ℕ → Routes → Option Node
find_route ch end = none
find_route ch (route c n rs) = if c == ch then some n else find_route ch rs

-- What a write through a route's pointer leaves: the node behind it is another, or the route is
-- new.
unfoldable pub set_route : ℕ → Node → Routes → Routes
set_route ch m end = route ch m end
set_route ch m (route c n rs) = if c == ch then route c m rs else route c n (set_route ch m rs)

-- The constructor of `Node`.
unfoldable pub new_node : ℕ → Node
new_node bits = node end (non_exist_leaf bits)

-- `getNextNode`, at a node that is there.
unfoldable pub get_next_node : ℕ → Node → Option Node
unfolding find_route
get_next_node ch current = find_route ch (routes current)

-- `getPathNode`
unfoldable pub get_path_node : List ℕ → Node → Option Node
unfolding get_next_node
get_path_node [] current = some current
get_path_node (ch ∷ key) current = elim (get_next_node ch current) [
  | none ↦ none
  | some next ↦ get_path_node key next
]

module _ (bits : ℕ) where
  -- `Insert`, for the nodes below and with `current`
  unfoldable pub insert : List ℕ → ℕ → Node → Node
  unfolding get_next_node set_route new_node
  insert [] l current = node (routes current) l
  insert (ch ∷ key) l current = elim (get_next_node ch current) [
    | none ↦ node (set_route ch (insert key l (new_node bits)) (routes current)) (leaf current)
    | some next ↦ node (set_route ch (insert key l next) (routes current)) (leaf current)
  ]

  -- `Get`
  unfoldable pub get : List ℕ → Node → ℕ
  unfolding get_path_node
  get key trie = elim (get_path_node key trie) [ none ↦ non_exist_leaf bits | some n ↦ leaf n ]

  -- `HasKey`
  unfoldable pub has_key : List ℕ → Node → Bool
  unfolding get_path_node
  has_key key trie = elim (get_path_node key trie) [
    | none ↦ false
    | some n ↦ not (non_exist_leaf bits == leaf n)
  ]

  -- The write to the leaf of a path's last node, in `Delete`.
  unfoldable pub set_leaf : List ℕ → ℕ → Node → Node
  unfolding get_next_node set_route
  set_leaf [] l current = node (routes current) l
  set_leaf (ch ∷ key) l current = elim (get_next_node ch current) [
    | none ↦ current
    | some next ↦ node (set_route ch (set_leaf key l next) (routes current)) (leaf current)
  ]

  -- `Delete`
  unfoldable pub delete : List ℕ → Node → Node × Bool
  unfolding get_path_node set_leaf
  delete key trie = elim (get_path_node key trie) [
    | none ↦ (trie, false)
    | some n ↦ (set_leaf key (non_exist_leaf bits) trie, true)
  ]

-- `FindMaxSubKey`, with `max_path` as the accumulator
unfoldable pub find_max_sub_key_from : ℕ → List ℕ → Node → ℕ
unfolding get_next_node
find_max_sub_key_from max_path [] current = max_path
find_max_sub_key_from max_path (ch ∷ key) current = elim (get_next_node ch current) [
  | none ↦ max_path
  | some next ↦ find_max_sub_key_from (max_path + 1) key next
]

unfoldable pub find_max_sub_key : List ℕ → Node → ℕ
unfolding find_max_sub_key_from
find_max_sub_key key trie = find_max_sub_key_from 0 key trie
