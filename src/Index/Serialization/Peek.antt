-- ===== src/Index/Serialization/Peek.antt =====
-- What the code sees of a trie at a key, and how the writes of `Deserialize` change it.
use yet_another_storage.Prelude.{
  ℕ, ◌≡◌, refl, Bool, true, false, Option, none, some, List, [], ◌∷◌, ◌++◌, arith, if◌then◌else◌,
  Option-cases, inl, inr,
}
use yet_another_storage.Trie.{
  Node, leaf, routes, find_route, new_node, get, set_leaf, non_exist_leaf,
}
use yet_another_storage.Trie.Lookup.{key_eq, find_route-set_route}
use yet_another_storage.Trie.Paths.{has_path}
use yet_another_storage.Index.Serialization.{id_bits}
use yet_another_storage.Index.Serialization.Deserialize.{reset_route}

-- The leaf of the node at a key, or nothing where no node is there.
unfoldable pub peek : List ℕ → Node → Option ℕ
peek [] t = some (leaf t)
peek (c ∷ j) t = elim (find_route c (routes t)) [ none ↦ none | some m ↦ peek j m ]

abbrev pub is_some : Option ℕ → Bool
is_some none = false
is_some (some l) = true

pub has_path-eq-peek : (j : List ℕ) (t : Node) → has_path j t ≡ is_some (peek j t)
unfolding has_path peek
has_path-eq-peek [] t = refl
has_path-eq-peek (c ∷ j) t = elim (Option-cases (find_route c (routes t))) [
  | inl e ↦ ground arith
  | inr (m, e) ↦ ground (arith, has_path-eq-peek j m)
]

abbrev pub leaf_or_none : Option ℕ → ℕ
leaf_or_none none = non_exist_leaf id_bits
leaf_or_none (some l) = l

pub get-eq-peek : (j : List ℕ) (t : Node) → get id_bits j t ≡ leaf_or_none (peek j t)
unfolding get peek
get-eq-peek [] t = refl
get-eq-peek (c ∷ j) t = elim (Option-cases (find_route c (routes t))) [
  | inl e ↦ ground arith
  | inr (m, e) ↦ ground (arith, get-eq-peek j m)
]

abbrev pub snoc : List ℕ → ℕ → List ℕ
snoc p c = p ++ (c ∷ [])

peek_new : (j : List ℕ) (c : ℕ) → peek (c ∷ j) (new_node id_bits) ≡ none
unfolding peek new_node find_route
peek_new j c = refl

leaf_new : leaf (new_node id_bits) ≡ non_exist_leaf id_bits
unfolding new_node
leaf_new = refl

-- A new route below a node that is there, where it was not.
pub peek-reset_route :
    (p : List ℕ) (c : ℕ) (j : List ℕ) (t : Node)
    → is_some (peek p t) ≡ true
    → is_some (peek (snoc p c) t) ≡ false
    → peek j (reset_route p c t)
      ≡ (if key_eq (snoc p c) j then some (non_exist_leaf id_bits) else peek j t)
unfolding key_eq peek reset_route
peek-reset_route [] c [] t h n = refl
peek-reset_route [] c (d ∷ []) t h n =
    ground (arith, find_route-set_route c d (new_node id_bits) (routes t), leaf_new)
peek-reset_route [] c (d ∷ e ∷ j) t h n = elim (Option-cases (find_route c (routes t))) [
  | inl absent ↦
      ground (arith, find_route-set_route c d (new_node id_bits) (routes t), peek_new j e)
  | inr (m, there) ↦ absurd (ground arith)
]
peek-reset_route (e ∷ p) c [] t h n = elim (Option-cases (find_route e (routes t))) [
  | inl absent ↦ ground arith
  | inr (m, there) ↦ ground arith
]
peek-reset_route (e ∷ p) c (d ∷ j) t h n = elim (Option-cases (find_route e (routes t))) [
  | inl absent ↦ absurd (ground arith)
  | inr (m, there) ↦
      ground
        (arith, find_route-set_route e d (reset_route p c m) (routes t), peek-reset_route p c j m)
]

pub peek-set_leaf :
    (p : List ℕ) (l : ℕ) (j : List ℕ) (t : Node)
    → is_some (peek p t) ≡ true
    → peek j (set_leaf id_bits p l t) ≡ (if key_eq p j then some l else peek j t)
unfolding key_eq peek set_leaf
peek-set_leaf [] l [] t h = refl
peek-set_leaf [] l (d ∷ j) t h = refl
peek-set_leaf (e ∷ p) l [] t h = elim (Option-cases (find_route e (routes t))) [
  | inl none_there ↦ ground arith
  | inr (m, there) ↦ ground arith
]
peek-set_leaf (e ∷ p) l (d ∷ j) t h = elim (Option-cases (find_route e (routes t))) [
  | inl none_there ↦ absurd (ground arith)
  | inr (m, there) ↦
      ground
        (arith, find_route-set_route e d (set_leaf id_bits p l m) (routes t), peek-set_leaf p l j m)
]
