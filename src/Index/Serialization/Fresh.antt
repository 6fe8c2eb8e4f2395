-- ===== src/Index/Serialization/Fresh.antt =====
-- The nodes of a level have different paths, which the trie under construction does not have yet.
use yet_another_storage.Prelude.{
  ℕ, ◌+◌, ◌<◌, ◌≡◌, refl, ap, true, false, Option, none, List, [], ◌∷◌, ◌++◌, length, arith,
  length-append,
}
use yet_another_storage.Trie.{Node, Routes, end, route, routes, find_route}
use yet_another_storage.Trie.Lookup.{key_eq, key_eq_iff}
use yet_another_storage.Index.Serialization.Peek.{peek, is_some, snoc}
use yet_another_storage.Index.Serialization.Visits.{Visit, below, next_visits}
use yet_another_storage.Index.Serialization.Prefix.{key_eq-snoc}
use yet_another_storage.Index.Serialization.Answers.{hit, Apart, Distinct, AtDepth}
use yet_another_storage.Index.Serialization.Ranges.{
  IsSerializable, AreSerializable, AllSerializable, IsSerializable-routes,
}

Apart-append : (p : List ℕ) (vs ws : List Visit) → Apart p vs → Apart p ws → Apart p (vs ++ ws)
unfolding Apart
Apart-append p [] ws a b = b
Apart-append p (v ∷ vs) ws a b = (a.0, Apart-append p vs ws a.1 b)

Apart-below_other :
    (p q : List ℕ) (c : ℕ) (rs : Routes) (id : ℕ)
    → key_eq p q ≡ false
    → Apart (snoc p c) (below rs id q)
unfolding Apart
Apart-below_other p q c end id n = tt
Apart-below_other p q c (route d m rs) id n =
    (ground (arith, key_eq-snoc p q c d), Apart-below_other p q c rs id n)

Apart-below :
    (p : List ℕ) (c : ℕ) (rs : Routes) (id : ℕ)
    → find_route c rs ≡ none
    → Apart (snoc p c) (below rs id p)
unfolding Apart find_route
Apart-below p c end id n = tt
Apart-below p c (route d m rs) id n =
    (ground (arith, key_eq-snoc p p c d), Apart-below p c rs id (ground arith))

Apart-next_visits :
    (p : List ℕ) (c base : ℕ) (vs : List Visit)
    → Apart p vs
    → Apart (snoc p c) (next_visits base vs)
unfolding Apart next_visits
Apart-next_visits p c base [] a = tt
Apart-next_visits p c base (v ∷ vs) a =
    Apart-append (snoc p c) (below (routes v.visited) base v.path) (next_visits (base + 1) vs)
      (Apart-below_other p v.path c (routes v.visited) base a.0)
      (Apart-next_visits p c (base + 1) vs a.1)

Distinct-below_append :
    (p : List ℕ) (rs : Routes) (id : ℕ) (ws : List Visit)
    → AreSerializable rs
    → ((c : ℕ) → Apart (snoc p c) ws)
    → Distinct ws
    → Distinct (below rs id p ++ ws)
unfolding Distinct IsSerializable
Distinct-below_append p end id ws s a d = d
Distinct-below_append p (route c n rs) id ws s a d = (
  Apart-append (snoc p c) (below rs id p) ws (Apart-below p c rs id s.1) (a c),
  Distinct-below_append p rs id ws s.3 a d,
)

pub Distinct-next_visits :
    (bound base : ℕ) (vs : List Visit)
    → AllSerializable bound vs
    → Distinct vs
    → Distinct (next_visits base vs)
unfolding Distinct AllSerializable next_visits
Distinct-next_visits bound base [] s d = tt
Distinct-next_visits bound base (v ∷ vs) s d =
    Distinct-below_append v.path (routes v.visited) base (next_visits (base + 1) vs)
      (IsSerializable-routes v.visited s.0) (λ c. Apart-next_visits v.path c (base + 1) vs d.0)
      (Distinct-next_visits bound (base + 1) vs s.3 d.1)

-- The parents of the nodes are in the trie, and the nodes are not.
unfoldable pub Fresh : Node → List Visit → Type 0
Fresh t [] = Unit
Fresh t (v ∷ vs) =
    (is_some (peek v.parent_path t) ≡ true)
    × (is_some (peek v.path t) ≡ false)
    × (v.path ≡ snoc v.parent_path v.ch)
    × Fresh t vs

Fresh-append : (t : Node) (vs ws : List Visit) → Fresh t vs → Fresh t ws → Fresh t (vs ++ ws)
unfolding Fresh
Fresh-append t [] ws a b = b
Fresh-append t (v ∷ vs) ws a b = (a.0, a.1, a.2, Fresh-append t vs ws a.3 b)

-- No node is below the level.
abbrev pub Shallow : ℕ → Node → Type 0
Shallow depth t = (j : List ℕ) → depth < length j → peek j t ≡ none

Fresh-below :
    (t : Node) (rs : Routes) (id : ℕ) (p : List ℕ)
    → Shallow (length p) t
    → is_some (peek p t) ≡ true
    → Fresh t (below rs id p)
unfolding Fresh
Fresh-below t end id p s h = tt
Fresh-below t (route c n rs) id p s h =
    let l = length-append p (c ∷ []) in
    (h, ap is_some (s (snoc p c) (omega arith)), refl, Fresh-below t rs id p s h)

-- The nodes are in the trie.
unfoldable pub Present : Node → List Visit → Type 0
Present t [] = Unit
Present t (v ∷ vs) = (is_some (peek v.path t) ≡ true) × Present t vs

pub Fresh-next_visits :
    (t : Node) (depth base : ℕ) (vs : List Visit)
    → Shallow depth t
    → AtDepth depth vs
    → Present t vs
    → Fresh t (next_visits base vs)
unfolding AtDepth Present next_visits
Fresh-next_visits t depth base [] s a h = unfold Fresh in tt
Fresh-next_visits t depth base (v ∷ vs) s a h =
    Fresh-append t (below (routes v.visited) base v.path) (next_visits (base + 1) vs)
      (Fresh-below t (routes v.visited) base v.path (rw a.0 s) h.0)
      (Fresh-next_visits t depth (base + 1) vs s a.1 h.1)

-- A trie that answers as a level's nodes do has them.
hit-is_some :
    (vs : List Visit) (j : List ℕ) (o : Option ℕ) → is_some o ≡ true → is_some (hit vs j o) ≡ true
unfolding hit
hit-is_some [] j o h = h
hit-is_some (v ∷ vs) j o h = ground (arith, hit-is_some vs j o h)

pub hit-Present :
    (t : Node) (f : List ℕ → Option ℕ) (vs : List Visit)
    → ((j : List ℕ) → is_some (hit vs j (f j)) ≡ true → is_some (peek j t) ≡ true)
    → Present t vs
unfolding Present hit
hit-Present t f [] h = tt
hit-Present t f (v ∷ vs) h =
    let self : key_eq v.path v.path ≡ true = ground (arith, key_eq_iff v.path v.path) in
    (h v.path (rw self refl), hit-Present t f vs (λ j q. h j (ground arith)))

key_eq-shorter : (p j : List ℕ) → length p < length j → key_eq p j ≡ false
unfolding key_eq
key_eq-shorter [] [] h = absurd (omega arith)
key_eq-shorter [] (d ∷ j) h = refl
key_eq-shorter (c ∷ p) [] h = refl
key_eq-shorter (c ∷ p) (d ∷ j) h = ground (arith, key_eq-shorter p j (omega arith))

-- Keys below a level's nodes do not see them.
pub hit-AtDepth :
    (depth : ℕ) (vs : List Visit) (j : List ℕ) (o : Option ℕ)
    → AtDepth depth vs
    → depth < length j
    → hit vs j o ≡ o
unfolding hit AtDepth
hit-AtDepth depth [] j o a h = refl
hit-AtDepth depth (v ∷ vs) j o a h =
    ground (arith, key_eq-shorter v.path j (omega (arith, a.0)), hit-AtDepth depth vs j o a.1 h)
