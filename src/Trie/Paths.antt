-- ===== src/Trie/Paths.antt =====
-- `FindMaxSubKey` of the trie: how far a key's path is there, and what `Insert` and `Delete` make
-- of it.
use yet_another_storage.Prelude.{
  ℕ, zero, suc, ◌+◌, ◌≤◌, max, ◌≡◌, refl, Bool, true, false, Option, none, some, List, [], ◌∷◌,
  arith, ◌==◌, if◌then◌else◌, Option-cases, inl, inr, ◌↔◌, length, take,
}
use yet_another_storage.Trie.{
  Node, node, leaf, routes, find_route, set_route, new_node, get_path_node, insert, delete,
  find_max_sub_key_from, find_max_sub_key, non_exist_leaf,
}
use yet_another_storage.Trie.Lookup.{find_route-set_route, set_leaf-eq-insert}

-- Whether the nodes of a key's path are there.
unfoldable pub has_path : List ℕ → Node → Bool
unfolding get_path_node
has_path key t = elim (get_path_node key t) [ none ↦ false | some n ↦ true ]

-- The length of the longest common prefix of two keys.
unfoldable pub common_prefix : List ℕ → List ℕ → ℕ
common_prefix [] j = 0
common_prefix (c ∷ k) [] = 0
common_prefix (c ∷ k) (d ∷ j) = if c == d then suc (common_prefix k j) else 0

find_max_sub_key_from-eq-add :
    (n : ℕ) (k : List ℕ) (t : Node) → find_max_sub_key_from n k t ≡ n + find_max_sub_key_from 0 k t
unfolding find_max_sub_key_from
find_max_sub_key_from-eq-add n [] t = omega arith
find_max_sub_key_from-eq-add n (c ∷ k) t = elim (Option-cases (find_route c (routes t))) [
  | inl e ↦ ground arith
  | inr (m, e) ↦
      ground
        (arith, find_max_sub_key_from-eq-add (n + 1) k m, find_max_sub_key_from-eq-add (0 + 1) k m)
]

module _ (c : ℕ) (k : List ℕ) (t : Node) where
  find_max_sub_key-absent : find_route c (routes t) ≡ none → find_max_sub_key (c ∷ k) t ≡ 0
  unfolding find_max_sub_key
  find_max_sub_key-absent e = ground arith

  find_max_sub_key-present :
      (m : Node)
      → find_route c (routes t) ≡ some m
      → find_max_sub_key (c ∷ k) t ≡ suc (find_max_sub_key k m)
  unfolding find_max_sub_key
  find_max_sub_key-present m e = ground (arith, find_max_sub_key_from-eq-add (0 + 1) k m)

abbrev depth_at : Option Node → List ℕ → ℕ
depth_at none k = 0
depth_at (some m) k = suc (find_max_sub_key k m)

find_max_sub_key-cons :
    (c : ℕ) (k : List ℕ) (t : Node)
    → find_max_sub_key (c ∷ k) t ≡ depth_at (find_route c (routes t)) k
find_max_sub_key-cons c k t = elim (Option-cases (find_route c (routes t))) [
  | inl e ↦ ground (arith, find_max_sub_key-absent c k t e)
  | inr (m, e) ↦ ground (arith, find_max_sub_key-present c k t m e)
]

-- The result of `FindMaxSubKey` is at most the key's length.
pub find_max_sub_key-le-length : (k : List ℕ) (t : Node) → find_max_sub_key k t ≤ length k
find_max_sub_key-le-length [] t = unfold find_max_sub_key in omega arith
find_max_sub_key-le-length (c ∷ k) t = elim (Option-cases (find_route c (routes t))) [
  | inl e ↦ omega (arith, find_max_sub_key-absent c k t e)
  | inr (m, e) ↦ omega (arith, find_max_sub_key-present c k t m e, find_max_sub_key-le-length k m)
]

-- A prefix of a key has its path in the trie exactly if it is not longer than the result of
-- `FindMaxSubKey` for the key.
pub has_path-take_iff :
    (k : List ℕ) (m : ℕ) (t : Node)
    → m ≤ length k
    → (has_path (take m k) t ≡ true) ↔ (m ≤ find_max_sub_key k t)
unfolding has_path
has_path-take_iff k zero t h = ground arith
has_path-take_iff [] (suc m) t h = absurd (omega arith)
has_path-take_iff (c ∷ k) (suc m) t h = elim (Option-cases (find_route c (routes t))) [
  | inl e ↦ ground (arith, find_max_sub_key-absent c k t e)
  | inr (n, e) ↦ ground (arith, find_max_sub_key-present c k t n e, has_path-take_iff k m n)
]

-- `FindMaxSubKey` is the length of the longest prefix of the key whose path is in the trie: a number
-- is at most its result exactly if the key is that long and the path of so many of its characters
-- is there.
pub find_max_sub_key-longest_iff :
    (k : List ℕ) (m : ℕ) (t : Node)
    → (m ≤ find_max_sub_key k t) ↔ ((m ≤ length k) × (has_path (take m k) t ≡ true))
find_max_sub_key-longest_iff k m t = (
  (λ h.
      let short : m ≤ length k = omega (arith, find_max_sub_key-le-length k t) in
      (short, (has_path-take_iff k m t short).1 h)),
  (λ h. (has_path-take_iff k m t h.0).0 h.1),
)

find_max_sub_key_new : (bits : ℕ) (j : List ℕ) → find_max_sub_key j (new_node bits) ≡ 0
unfolding find_max_sub_key new_node
find_max_sub_key_new bits [] = refl
find_max_sub_key_new bits (d ∷ j) = refl

find_max_sub_key-node :
    (j : List ℕ) (l : ℕ) (t : Node) → find_max_sub_key j (node (routes t) l) ≡ find_max_sub_key j t
unfolding find_max_sub_key
find_max_sub_key-node [] l t = refl
find_max_sub_key-node (d ∷ j) l t = refl

-- After `Insert` of a key, the path of another key reaches as far as before, or as far as the two
-- keys agree, whichever is longer.
pub find_max_sub_key-insert :
    (bits : ℕ) (k j : List ℕ) (l : ℕ) (t : Node)
    → find_max_sub_key j (insert bits k l t) ≡ max (find_max_sub_key j t) (common_prefix k j)
unfolding insert common_prefix
find_max_sub_key-insert bits [] j l t = omega (arith, find_max_sub_key-node j l t)
find_max_sub_key-insert bits (c ∷ k) [] l t = unfold find_max_sub_key in ground arith
find_max_sub_key-insert bits (c ∷ k) (d ∷ j) l t = elim (Option-cases (find_route c (routes t))) [
  | inl e ↦
      let n = insert bits k l (new_node bits) in
      ground (
        arith,
        find_max_sub_key-cons d j t,
        find_max_sub_key-cons d j (node (set_route c n (routes t)) (leaf t)),
        find_route-set_route c d n (routes t),
        find_max_sub_key-insert bits k j l (new_node bits),
        find_max_sub_key_new bits j,
      )
  | inr (m, e) ↦
      let n = insert bits k l m in
      ground (
        arith,
        find_max_sub_key-cons d j t,
        find_max_sub_key-cons d j (node (set_route c n (routes t)) (leaf t)),
        find_route-set_route c d n (routes t),
        find_max_sub_key-insert bits k j l m,
      )
]

-- Where the whole path of a key is there, another key's path is there as far as the two agree.
common_prefix-le :
    (k j : List ℕ) (t : Node) → has_path k t ≡ true → common_prefix k j ≤ find_max_sub_key j t
unfolding has_path common_prefix
common_prefix-le [] j t h = omega arith
common_prefix-le (c ∷ k) [] t h = omega arith
common_prefix-le (c ∷ k) (d ∷ j) t h = elim (Option-cases (find_route c (routes t))) [
  | inl e ↦ absurd (ground arith)
  | inr (m, e) ↦ ground (arith, find_max_sub_key-cons d j t, common_prefix-le k j m)
]

-- `Delete` leaves every path as it was.
pub find_max_sub_key-delete :
    (bits : ℕ) (k j : List ℕ) (t : Node)
    → find_max_sub_key j (delete bits k t).0 ≡ find_max_sub_key j t
unfolding delete has_path
find_max_sub_key-delete bits k j t = elim (Option-cases (get_path_node k t)) [
  | inl e ↦ ground arith
  | inr (n, e) ↦ ground (
    arith,
    set_leaf-eq-insert bits k (non_exist_leaf bits) t n e,
    find_max_sub_key-insert bits k j (non_exist_leaf bits) t,
    common_prefix-le k j t,
  )
]
