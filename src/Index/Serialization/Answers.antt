-- ===== src/Index/Serialization/Answers.antt =====
-- The answers of a level: of its nodes, and of the subtrees at their paths. The answers of the
-- nodes of a level and of the subtrees of the next one are those of the subtrees of the level.
use yet_another_storage.Prelude.{
  ℕ, ◌+◌, ◌<◌, ◌≡◌, refl, ap, sym, ◌∙◌, false, Option, none, some, List, [], ◌∷◌, ◌++◌, length,
  arith, if◌then◌else◌, inl, inr, Option-cases, length-append,
}
use yet_another_storage.Trie.{Node, Routes, end, route, leaf, routes, find_route}
use yet_another_storage.Trie.Lookup.{key_eq}
use yet_another_storage.Index.Serialization.Peek.{peek, snoc}
use yet_another_storage.Index.Serialization.Visits.{Visit, below, next_visits}
use yet_another_storage.Index.Serialization.Prefix.{
  is_prefix, under, prefix-cases, under-outside, under-append, under-snoc, is_prefix-snoc,
  is_prefix-longer, is_prefix-apart, key_eq-outside, key_eq_self, key_eq-longer,
}

-- The answer of the first node at the key, or another.
unfoldable pub hit : List Visit → List ℕ → Option ℕ → Option ℕ
hit [] j o = o
hit (v ∷ vs) j o = if key_eq v.path j then some (leaf v.visited) else hit vs j o

-- The answer of the first subtree to which the key leads, or another.
unfoldable pub answer : List Visit → List ℕ → Option ℕ → Option ℕ
answer [] j o = o
answer (v ∷ vs) j o = under v.path v.visited j (answer vs j o)

-- No node is at the path.
unfoldable pub Apart : List ℕ → List Visit → Type 0
Apart p [] = Unit
Apart p (v ∷ vs) = (key_eq p v.path ≡ false) × Apart p vs

unfoldable pub Distinct : List Visit → Type 0
Distinct [] = Unit
Distinct (v ∷ vs) = Apart v.path vs × Distinct vs

-- All nodes are on the level.
unfoldable pub AtDepth : ℕ → List Visit → Type 0
AtDepth depth [] = Unit
AtDepth depth (v ∷ vs) = (length v.path ≡ depth) × AtDepth depth vs

answer-append :
    (vs ws : List Visit) (j : List ℕ) (o : Option ℕ)
    → answer (vs ++ ws) j o ≡ answer vs j (answer ws j o)
unfolding answer
answer-append [] ws j o = refl
answer-append (v ∷ vs) ws j o = ap (under v.path v.visited j) (answer-append vs ws j o)

-- Keys that end above a level do not reach it.
answer-above :
    (depth : ℕ) (vs : List Visit) (j : List ℕ) (o : Option ℕ)
    → AtDepth depth vs
    → length j < depth
    → answer vs j o ≡ o
unfolding answer AtDepth
answer-above depth [] j o a h = refl
answer-above depth (v ∷ vs) j o a h =
    under-outside v.path v.visited j (answer vs j o)
      (is_prefix-longer v.path j (omega (arith, a.0)))
    ∙ answer-above depth vs j o a.1 h

answer-Apart :
    (vs : List Visit) (p k : List ℕ) (o : Option ℕ)
    → AtDepth (length p) vs
    → Apart p vs
    → answer vs (p ++ k) o ≡ o
unfolding answer AtDepth Apart
answer-Apart [] p k o a d = refl
answer-Apart (v ∷ vs) p k o a d =
    under-outside v.path v.visited (p ++ k) (answer vs (p ++ k) o)
      (is_prefix-apart p v.path k (sym a.0) d.0)
    ∙ answer-Apart vs p k o a.1 d.1

pub AtDepth-append :
    (depth : ℕ) (vs ws : List Visit)
    → AtDepth depth vs
    → AtDepth depth ws
    → AtDepth depth (vs ++ ws)
unfolding AtDepth
AtDepth-append depth [] ws a b = b
AtDepth-append depth (v ∷ vs) ws a b = (a.0, AtDepth-append depth vs ws a.1 b)

pub AtDepth-below : (rs : Routes) (id : ℕ) (p : List ℕ) → AtDepth (length p + 1) (below rs id p)
unfolding AtDepth
AtDepth-below end id p = tt
AtDepth-below (route c n rs) id p = (omega (arith, length-append p (c ∷ [])), AtDepth-below rs id p)

pub AtDepth-next_visits :
    (depth base : ℕ) (vs : List Visit)
    → AtDepth depth vs
    → AtDepth (depth + 1) (next_visits base vs)
unfolding AtDepth next_visits
AtDepth-next_visits depth base [] a = tt
AtDepth-next_visits depth base (v ∷ vs) a =
    AtDepth-append (depth + 1) (below (routes v.visited) base v.path) (next_visits (base + 1) vs)
      (rw (← a.0) (AtDepth-below (routes v.visited) base v.path))
      (AtDepth-next_visits depth (base + 1) vs a.1)

-- The children of a node answer to the keys that lead through it.
answer-below_outside :
    (rs : Routes) (id : ℕ) (p j : List ℕ) (o : Option ℕ)
    → is_prefix p j ≡ false
    → answer (below rs id p) j o ≡ o
unfolding answer
answer-below_outside end id p j o n = refl
answer-below_outside (route c m rs) id p j o n =
    under-outside (snoc p c) m j (answer (below rs id p) j o) (is_prefix-snoc p c j n)
    ∙ answer-below_outside rs id p j o n

abbrev pub child_answer : Option Node → List ℕ → Option ℕ → Option ℕ
child_answer none k o = o
child_answer (some m) k o = peek k m

pub answer-below :
    (rs : Routes) (id : ℕ) (p : List ℕ) (d : ℕ) (k : List ℕ) (o : Option ℕ)
    → answer (below rs id p) (p ++ (d ∷ k)) o ≡ child_answer (find_route d rs) k o
unfolding answer find_route
answer-below end id p d k o = refl
answer-below (route c m rs) id p d k o =
    under-snoc p c d m k (answer (below rs id p) (p ++ (d ∷ k)) o)
    ∙ ground (arith, answer-below rs id p d k o)

peek-child :
    (d : ℕ) (k : List ℕ) (t : Node) → peek (d ∷ k) t ≡ child_answer (find_route d (routes t)) k none
unfolding peek
peek-child d k t = elim (Option-cases (find_route d (routes t))) [
  | inl e ↦ ground arith
  | inr (m, e) ↦ ground arith
]

peek_nil : (t : Node) → peek [] t ≡ some (leaf t)
unfolding peek
peek_nil t = refl

-- The answers of a level's nodes and of the next level are those of the level.
pub answer-next_visits :
    (depth base : ℕ) (vs : List Visit) (j : List ℕ) (o : Option ℕ)
    → AtDepth depth vs
    → Distinct vs
    → (depth < length j → o ≡ none)
    → answer (next_visits base vs) j (hit vs j o) ≡ answer vs j o
unfolding next_visits hit answer AtDepth Distinct
answer-next_visits depth base [] j o a d s = refl
answer-next_visits depth base (v ∷ vs) j o a d s =
    let rs = routes v.visited in
    let next = next_visits (base + 1) vs in
    let rest = answer-next_visits depth (base + 1) vs j o a.1 d.1 s in
    answer-append (below rs base v.path) next j _ ∙ elim (prefix-cases v.path j) [
      | inl n ↦ rw (key_eq-outside v.path j n) (
          answer-below_outside rs base v.path j _ n
          ∙ rest
          ∙ sym (under-outside v.path v.visited j _ n))
      | inr ([], e) ↦
          let l = length-append v.path [] in
          let above =
            answer-above (length v.path + 1) (below rs base v.path) (v.path ++ []) _
              (AtDepth-below rs base v.path) (omega arith) in
          let next_above =
            answer-above (depth + 1) next (v.path ++ []) _
              (AtDepth-next_visits depth (base + 1) vs a.1) (omega (arith, a.0)) in
          rw (e, key_eq_self v.path, under-append v.path v.visited [] _)
            (above ∙ next_above ∙ sym (peek_nil v.visited))
      | inr (c ∷ k, e) ↦
          let l = length-append v.path (c ∷ k) in
          let long : depth < length j = rw e (omega (arith, a.0)) in
          let outside : answer vs j o ≡ none =
            rw e (answer-Apart vs v.path (c ∷ k) o (rw a.0 a.1) d.0) ∙ s long in
          let rest' : answer next (v.path ++ (c ∷ k)) (hit vs (v.path ++ (c ∷ k)) o) ≡ none =
            rw (← e) (rest ∙ outside) in
          rw (e, key_eq-longer v.path c k, under-append v.path v.visited (c ∷ k) _, rest')
            (answer-below rs base v.path c k none ∙ sym (peek-child c k v.visited))
    ]
