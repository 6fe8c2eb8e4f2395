-- ===== src/Trie/Lookup.antt =====
-- What the trie holds after `Insert` and `Delete`: a map from keys to leaves.
use yet_another_storage.Prelude.{
  ℕ, ◌≡◌, ◌≢◌, refl, Bool, true, false, ◌&&◌, none, some, List, [], ◌∷◌, arith, ◌==◌, if◌then◌else◌,
  Option-cases, inl, inr, ◌↔◌,
}
use yet_another_storage.Trie.{
  Node, Routes, node, end, route, leaf, routes, non_exist_leaf, find_route, set_route, new_node,
  get_path_node, insert, get, has_key, set_leaf, delete,
}

-- Equality of keys.
unfoldable pub key_eq : List ℕ → List ℕ → Bool
key_eq [] [] = true
key_eq [] (d ∷ j) = false
key_eq (c ∷ k) [] = false
key_eq (c ∷ k) (d ∷ j) = c == d && key_eq k j

pub key_eq_iff : (k j : List ℕ) → (key_eq k j ≡ true) ↔ (k ≡ j)
unfolding key_eq
key_eq_iff [] [] = ground arith
key_eq_iff [] (d ∷ j) = ground arith
key_eq_iff (c ∷ k) [] = ground arith
key_eq_iff (c ∷ k) (d ∷ j) = ground (arith, key_eq_iff k j)

pub find_route-set_route :
    (ch d : ℕ) (m : Node) (rs : Routes)
    → find_route d (set_route ch m rs) ≡ (if ch == d then some m else find_route d rs)
unfolding find_route set_route
find_route-set_route ch d m end = ground arith
find_route-set_route ch d m (route c n rs) = ground (arith, find_route-set_route ch d m rs)

module _ (bits : ℕ) where
  -- The node that a character leads to, or a new one.
  abbrev child : ℕ → Routes → Node
  child ch rs = elim (find_route ch rs) [ none ↦ new_node bits | some n ↦ n ]

  pub get_new : (j : List ℕ) → get bits j (new_node bits) ≡ non_exist_leaf bits
  unfolding get new_node
  get_new [] = refl
  get_new (d ∷ j) = refl

  get-cons : (d : ℕ) (j : List ℕ) (t : Node) → get bits (d ∷ j) t ≡ get bits j (child d (routes t))
  unfolding get new_node
  get-cons d j t = ground (arith, get_new j)

  child-set_route :
      (c d : ℕ) (m : Node) (rs : Routes)
      → child d (set_route c m rs) ≡ (if c == d then m else child d rs)
  child-set_route c d m rs = ground (arith, find_route-set_route c d m rs)

  insert-cons :
      (c : ℕ) (k : List ℕ) (l : ℕ) (t : Node)
      → insert bits (c ∷ k) l t
        ≡ node (set_route c (insert bits k l (child c (routes t))) (routes t)) (leaf t)
  unfolding insert
  insert-cons c k l t = ground arith

  -- `Insert` sets the leaf of its key and no other: a later `Get` of any key finds the new leaf
  -- at that key, and elsewhere what it found before.
  pub get-insert :
      (k j : List ℕ) (l : ℕ) (t : Node)
      → get bits j (insert bits k l t) ≡ (if key_eq k j then l else get bits j t)
  unfolding key_eq
  get-insert [] [] l t = unfold get insert in refl
  get-insert [] (d ∷ j) l t = unfold get insert in refl
  get-insert (c ∷ k) [] l t = rw insert-cons (unfold get in refl)
  get-insert (c ∷ k) (d ∷ j) l t =
      rw (insert-cons, get-cons d j _, get-cons d j t, child-set_route)
        (ground (arith, get-insert k j l (child c (routes t))))

  -- Where the path is there, a write to its leaf is an insertion.
  pub set_leaf-eq-insert :
      (k : List ℕ) (l : ℕ) (t n : Node)
      → get_path_node k t ≡ some n
      → set_leaf bits k l t ≡ insert bits k l t
  unfolding set_leaf insert get_path_node
  set_leaf-eq-insert [] l t n h = refl
  set_leaf-eq-insert (c ∷ k) l t n h = elim (Option-cases (find_route c (routes t))) [
    | inl e ↦ absurd (ground arith)
    | inr (m, e) ↦ ground (arith, set_leaf-eq-insert k l m n)
  ]

  get_of_no_path :
      (k : List ℕ) (t : Node) → get_path_node k t ≡ none → get bits k t ≡ non_exist_leaf bits
  unfolding get
  get_of_no_path k t h = ground arith

  -- `Delete` removes the leaf of its key and no other, whether or not the key's path is there.
  pub get-delete :
      (k j : List ℕ) (t : Node)
      → get bits j (delete bits k t).0 ≡ (if key_eq k j then non_exist_leaf bits else get bits j t)
  unfolding delete
  get-delete k j t = elim (Option-cases (get_path_node k t)) [
    | inl e ↦ ground (arith, get_of_no_path k t, key_eq_iff k j)
    | inr (n, e) ↦ ground (
      arith,
      set_leaf-eq-insert k (non_exist_leaf bits) t n,
      get-insert k j (non_exist_leaf bits) t,
    )
  ]

  -- `HasKey` holds exactly if `Get` finds a leaf.
  pub has_key_iff :
      (k : List ℕ) (t : Node) → (has_key bits k t ≡ true) ↔ (get bits k t ≢ non_exist_leaf bits)
  unfolding has_key get
  has_key_iff k t = ground arith
