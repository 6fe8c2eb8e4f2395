-- ===== src/Index/Serialization/Place.antt =====
-- `Deserialize` places the nodes of one level below those of the level above.
use yet_another_storage.Prelude.{
  ℕ, ◌+◌, ◌-◌, ◌^◌, ◌<◌, ◌≡◌, refl, ap, sym, ◌∙◌, true, false, none, some, List, [], ◌∷◌, arith,
  if◌then◌else◌, ltb, inl, inr, Bool-cases,
}
use yet_another_storage.Exec.{Result, ok, throw}
use yet_another_storage.Errors.{yas, inverted_index_deserialization_error}
use yet_another_storage.Trie.{Node, leaf, non_exist_leaf, is_exist_leaf, set_leaf}
use yet_another_storage.Trie.Lookup.{key_eq, key_eq_iff}
use yet_another_storage.Trie.Paths.{has_path}
use yet_another_storage.Index.Serialization.{id_bits, is_exist_id, NodeSerialization}
use yet_another_storage.Index.Serialization.Deserialize.{
  find, emplace, Building, enter_level, reset_route, set_route_leaf, place_below, place_node,
}
use yet_another_storage.Index.Serialization.Peek.{
  peek, is_some, snoc, has_path-eq-peek, peek-reset_route, peek-set_leaf,
}
use yet_another_storage.Index.Serialization.Visits.{Visit, holds_leaf, node_of}

-- The state on a level, with the nodes of the level above.
abbrev pub building : ℕ → List (ℕ × List ℕ) → List (ℕ × List ℕ) → Node → Building
building depth above here t = record {
  depth_level = depth;
  previous_level_nodes = above;
  current_level_nodes = here;
  trie = t;
}

-- The ids of a level's nodes, with the paths to them.
unfoldable pub register : ℕ → List Visit → List (ℕ × List ℕ) → List (ℕ × List ℕ)
register base [] here = here
register base (v ∷ vs) here = register (base + 1) vs (emplace base v.path here)

-- The parents are registered.
unfoldable pub Parents : List (ℕ × List ℕ) → List Visit → Type 0
Parents above [] = Unit
Parents above (v ∷ vs) = (find v.parent_id above ≡ some v.parent_path) × Parents above vs

-- The leaf of a node is where its number leads.
abbrev pub LeafFound : List (ℕ × ℕ) → ℕ → Visit → Type 0
LeafFound leafs base v = holds_leaf v ≡ true → find base leafs ≡ some (leaf v.visited)

-- The trie with a node placed.
unfoldable pub placed : Visit → Node → Node
placed v t =
    if holds_leaf v
    then set_leaf id_bits v.path (leaf v.visited) (reset_route v.parent_path v.ch t)
    else reset_route v.parent_path v.ch t

pub peek-placed :
    (v : Visit) (t : Node) (j : List ℕ)
    → is_some (peek v.parent_path t) ≡ true
    → is_some (peek v.path t) ≡ false
    → v.path ≡ snoc v.parent_path v.ch
    → peek j (placed v t) ≡ (if key_eq v.path j then some (leaf v.visited) else peek j t)
unfolding placed is_exist_leaf
peek-placed v t j h n e =
    let n' : is_some (peek (snoc v.parent_path v.ch) t) ≡ false = rw (← e) n in
    let self : key_eq v.path v.path ≡ true = ground (arith, key_eq_iff v.path v.path) in
    let reset_j : peek j (reset_route v.parent_path v.ch t)
        ≡ (if key_eq v.path j then some (non_exist_leaf id_bits) else peek j t) =
      rw e (peek-reset_route v.parent_path v.ch j t h n') in
    let reset_self : peek v.path (reset_route v.parent_path v.ch t)
        ≡ some (non_exist_leaf id_bits) =
      peek-reset_route v.parent_path v.ch v.path t h n' ∙ rw (← e, self) refl in
    let set =
      peek-set_leaf v.path (leaf v.visited) j (reset_route v.parent_path v.ch t)
        (rw reset_self refl) in
    elim (Bool-cases (holds_leaf v)) [ inl l ↦ ground arith | inr l ↦ ground arith ]

pub enter_level-same :
    (depth : ℕ) (above here : List (ℕ × List ℕ)) (t : Node)
    → enter_level depth (building depth above here t) ≡ building depth above here t
unfolding enter_level
enter_level-same depth above here t =
    let same_level : ltb depth depth ≡ false = ground arith in rw same_level refl

pub enter_level-next :
    (depth : ℕ) (above here : List (ℕ × List ℕ)) (t : Node)
    → enter_level (depth + 1) (building depth above here t) ≡ building (depth + 1) here [] t
unfolding enter_level
enter_level-next depth above here t =
    let deeper : ltb depth (depth + 1) ≡ true = ground arith in rw deeper refl

set_route_leaf-placed :
    (leafs : List (ℕ × ℕ)) (above here : List (ℕ × List ℕ)) (depth lid base : ℕ) (v : Visit)
    (t : Node)
    → LeafFound leafs base v
    → lid < 2 ^ 64 - 1
    → set_route_leaf
        (node_of depth lid base v)
        leafs
        v.path
        (building depth above here (reset_route v.parent_path v.ch t))
      ≡ ok (building depth above here (placed v t))
unfolding set_route_leaf placed
set_route_leaf-placed leafs above here depth lid base v t l s = elim (Bool-cases (holds_leaf v)) [
  | inl f ↦ let exists : is_exist_id lid ≡ true = ground arith in rw (f, exists, l f) refl
  | inr f ↦ rw f refl
]

-- `place_node` behind the step to the next level.
abbrev place_in : NodeSerialization → List (ℕ × ℕ) → Building → Result Building
place_in d leafs b = elim (find d.parent_node_id b.previous_level_nodes) [
  | none ↦
      throw (yas "Corrupt data: parent node can't be found" inverted_index_deserialization_error)
  | some parent ↦ place_below d leafs parent b
]

place_node-eq :
    (d : NodeSerialization) (leafs : List (ℕ × ℕ)) (b : Building)
    → place_node d leafs b ≡ place_in d leafs (enter_level d.depth_level b)
unfolding place_node
place_node-eq d leafs b = refl

pub place_node-enter :
    (d : NodeSerialization) (leafs : List (ℕ × ℕ)) (b b' : Building)
    → enter_level d.depth_level b ≡ enter_level d.depth_level b'
    → place_node d leafs b ≡ place_node d leafs b'
place_node-enter d leafs b b' e =
    place_node-eq d leafs b ∙ ap (place_in d leafs) e ∙ sym (place_node-eq d leafs b')

place_below-placed :
    (leafs : List (ℕ × ℕ)) (above here : List (ℕ × List ℕ)) (depth lid base : ℕ) (v : Visit)
    (t : Node)
    → LeafFound leafs base v
    → lid < 2 ^ 64 - 1
    → is_some (peek v.path t) ≡ false
    → v.path ≡ snoc v.parent_path v.ch
    → place_below (node_of depth lid base v) leafs v.parent_path (building depth above here t)
      ≡ ok (building depth above (emplace base v.path here) (placed v t))
unfolding place_below
place_below-placed leafs above here depth lid base v t l s n e =
    let absent : has_path v.path t ≡ false = has_path-eq-peek v.path t ∙ n in
    rw (← e) (
      rw absent
        (set_route_leaf-placed leafs above (emplace base v.path here) depth lid base v t l s))

pub place_node-placed :
    (leafs : List (ℕ × ℕ)) (above here : List (ℕ × List ℕ)) (depth lid base : ℕ) (v : Visit)
    (t : Node)
    → find v.parent_id above ≡ some v.parent_path
    → LeafFound leafs base v
    → lid < 2 ^ 64 - 1
    → is_some (peek v.path t) ≡ false
    → v.path ≡ snoc v.parent_path v.ch
    → place_node (node_of depth lid base v) leafs (building depth above here t)
      ≡ ok (building depth above (emplace base v.path here) (placed v t))
place_node-placed leafs above here depth lid base v t p l s n e =
    place_node-eq (node_of depth lid base v) leafs (building depth above here t)
    ∙ ap (place_in (node_of depth lid base v) leafs) (enter_level-same depth above here t)
    ∙ rw (place_in, p) (place_below-placed leafs above here depth lid base v t l s n e)
