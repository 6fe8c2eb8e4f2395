-- ===== src/Index/Serialization/Keeping.antt =====
-- The operations of the index keep its trie such that it can be saved.
use yet_another_storage.Prelude.{
  ℕ, ◌^◌, ◌<◌, ◌≡◌, refl, ◌∙◌, none, some, List, [], ◌∷◌, arith, ◌==◌, Option-cases, Bool-cases,
  inl, inr,
}
use yet_another_storage.Trie.{
  Node, Routes, node, end, route, leaf, routes, find_route, set_route, new_node, non_exist_leaf,
  get_next_node, get_path_node, set_leaf,
}
use yet_another_storage.Trie
use yet_another_storage.Trie.Lookup.{find_route-set_route}
use yet_another_storage.Index
use yet_another_storage.Index.{InvertedIndex, new_index}
use yet_another_storage.Index.Refinement.{Change, put, remove, change_index, run_index}
use yet_another_storage.Index.Serialization.{id_bits}
use yet_another_storage.Index.Serialization.Ranges.{
  IsSerializable, AreSerializable, IsSerializable-routes, IsSerializable-leaf,
}

-- The keys are made of bytes.
abbrev pub AllBytes : List ℕ → Type 0
AllBytes [] = Unit
AllBytes (c ∷ k) = (c < 256) × AllBytes k

IsSerializable-node :
    (rs : Routes) (l : ℕ) → l < 2 ^ 64 → AreSerializable rs → IsSerializable (node rs l)
unfolding IsSerializable
IsSerializable-node rs l h s = (h, s)

AreSerializable-find_route :
    (c : ℕ) (rs : Routes) (m : Node)
    → find_route c rs ≡ some m
    → AreSerializable rs
    → IsSerializable m
unfolding find_route IsSerializable
AreSerializable-find_route c end m e s = cc
AreSerializable-find_route c (route d n rs) m e s = elim (Bool-cases (d == c)) [
  | inl q ↦ let same : n ≡ m = ground arith in rw (← same) s.2
  | inr q ↦ AreSerializable-find_route c rs m (ground arith) s.3
]

find_route_end : (c : ℕ) → find_route c end ≡ none
unfolding find_route
find_route_end c = refl

AreSerializable-set_route :
    (c : ℕ) (m : Node) (rs : Routes)
    → c < 256
    → IsSerializable m
    → AreSerializable rs
    → AreSerializable (set_route c m rs)
unfolding set_route IsSerializable
AreSerializable-set_route c m end h i s = (h, find_route_end c, i, tt)
AreSerializable-set_route c m (route d n rs) h i s = elim (Bool-cases (d == c)) [
  | inl q ↦ rw q (s.0, s.1, i, s.3)
  | inr q ↦ rw q (
    s.0,
    find_route-set_route c d m rs ∙ ground (arith, s.1),
    s.2,
    AreSerializable-set_route c m rs h i s.3,
  )
]

new_node-IsSerializable : IsSerializable (new_node id_bits)
unfolding new_node non_exist_leaf IsSerializable
new_node-IsSerializable = (omega arith, tt)

insert-IsSerializable :
    (k : List ℕ) (l : ℕ) (t : Node)
    → AllBytes k
    → l < 2 ^ 64
    → IsSerializable t
    → IsSerializable (Trie.insert id_bits k l t)
unfolding Trie.insert get_next_node
insert-IsSerializable [] l t b h s = IsSerializable-node (routes t) l h (IsSerializable-routes t s)
insert-IsSerializable (c ∷ k) l t b h s = elim (Option-cases (find_route c (routes t))) [
  | inl e ↦
      let below = insert-IsSerializable k l (new_node id_bits) b.1 h new_node-IsSerializable in
      rw (e, Trie.insert)
        (IsSerializable-node _ (leaf t) (IsSerializable-leaf t s) (
          AreSerializable-set_route c (Trie.insert id_bits k l (new_node id_bits)) (routes t) b.0
            below (IsSerializable-routes t s)))
  | inr (m, e) ↦
      let there = AreSerializable-find_route c (routes t) m e (IsSerializable-routes t s) in
      let below = insert-IsSerializable k l m b.1 h there in
      rw (e, Trie.insert)
        (IsSerializable-node _ (leaf t) (IsSerializable-leaf t s) (
          AreSerializable-set_route c (Trie.insert id_bits k l m) (routes t) b.0 below
            (IsSerializable-routes t s)))
]

set_leaf-IsSerializable :
    (k : List ℕ) (l : ℕ) (t : Node)
    → AllBytes k
    → l < 2 ^ 64
    → IsSerializable t
    → IsSerializable (set_leaf id_bits k l t)
unfolding set_leaf get_next_node
set_leaf-IsSerializable [] l t b h s =
    IsSerializable-node (routes t) l h (IsSerializable-routes t s)
set_leaf-IsSerializable (c ∷ k) l t b h s = elim (Option-cases (find_route c (routes t))) [
  | inl e ↦ rw (e, set_leaf) s
  | inr (m, e) ↦
      let there = AreSerializable-find_route c (routes t) m e (IsSerializable-routes t s) in
      let below = set_leaf-IsSerializable k l m b.1 h there in
      rw (e, set_leaf)
        (IsSerializable-node _ (leaf t) (IsSerializable-leaf t s) (
          AreSerializable-set_route c (set_leaf id_bits k l m) (routes t) b.0 below
            (IsSerializable-routes t s)))
]

delete-IsSerializable :
    (k : List ℕ) (t : Node)
    → AllBytes k
    → IsSerializable t
    → IsSerializable (Trie.delete id_bits k t).0
unfolding Trie.delete
delete-IsSerializable k t b s = elim (Option-cases (get_path_node k t)) [
  | inl e ↦ rw (e, Trie.delete) s
  | inr (m, e) ↦
      let bound : non_exist_leaf id_bits < 2 ^ 64 = unfold non_exist_leaf in omega arith in
      rw (e, Trie.delete) (set_leaf-IsSerializable k (non_exist_leaf id_bits) t b bound s)
]

-- A call with a key of bytes and a leaf of 64 bits.
abbrev pub InBounds : Change → Type 0
InBounds (put k l) = AllBytes k × (l < 2 ^ 64)
InBounds (remove k) = AllBytes k

abbrev pub AllInBounds : List Change → Type 0
AllInBounds [] = Unit
AllInBounds (c ∷ cs) = InBounds c × AllInBounds cs

change_index-IsSerializable :
    (c : Change) (x : InvertedIndex)
    → InBounds c
    → IsSerializable x.engine
    → IsSerializable (change_index id_bits x c).engine
unfolding Index.insert Index.delete
change_index-IsSerializable (put [] l) x b s = s
change_index-IsSerializable (put (c ∷ k) l) x b s =
    insert-IsSerializable (c ∷ k) l x.engine b.0 b.1 s
change_index-IsSerializable (remove []) x b s = s
change_index-IsSerializable (remove (c ∷ k)) x b s = delete-IsSerializable (c ∷ k) x.engine b s

-- Any calls of `Insert` and `Delete` with keys of bytes and leaves of 64 bits leave a trie that can
-- be saved, if it could be before: no node has two routes for one character, and all characters
-- and leaves have their size.
pub run_index-IsSerializable :
    (cs : List Change) (x : InvertedIndex)
    → AllInBounds cs
    → IsSerializable x.engine
    → IsSerializable (run_index id_bits cs x).engine
unfolding run_index
run_index-IsSerializable [] x b s = s
run_index-IsSerializable (c ∷ cs) x b s =
    run_index-IsSerializable cs (change_index id_bits x c) b.1
      (change_index-IsSerializable c x b.0 s)

-- The new index can be saved.
pub new_index-IsSerializable : IsSerializable (new_index id_bits).engine
unfolding new_index
new_index-IsSerializable = new_node-IsSerializable
