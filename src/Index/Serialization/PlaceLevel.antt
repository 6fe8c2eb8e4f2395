-- ===== src/Index/Serialization/PlaceLevel.antt =====
-- `Deserialize` places all nodes of a level.
use yet_another_storage.Prelude.{
  ℕ, ◌+◌, ◌^◌, ◌<◌, ◌≤◌, ◌≡◌, refl, ap, sym, ◌∙◌, true, false, Option, none, some, List, [], ◌∷◌,
  ◌++◌, length, arith, if◌then◌else◌, inl, inr, Bool-cases,
}
use yet_another_storage.Exec.{ok}
use yet_another_storage.Trie.{Node, Routes, end, route, leaf, routes}
use yet_another_storage.Trie.Lookup.{key_eq, key_eq_iff}
use yet_another_storage.Index.Serialization.{NodeSerialization}
use yet_another_storage.Index.Serialization.Deserialize.{find, emplace}
use yet_another_storage.Index.Serialization.Peek.{peek}
use yet_another_storage.Index.Serialization.Visits.{
  Visit, below, next_visits, holds_leaf, leafs_of, node_of, next_lid, nodes_of,
}
use yet_another_storage.Index.Serialization.LeafMap.{Covers, find-emplace_ne, find-emplace_self}
use yet_another_storage.Index.Serialization.Cursor.{and_place, place_all}
use yet_another_storage.Index.Serialization.Answers.{hit, Apart, Distinct}
use yet_another_storage.Index.Serialization.Fresh.{Fresh}
use yet_another_storage.Index.Serialization.Place.{
  building, register, Parents, LeafFound, placed, peek-placed, place_node-placed, place_node-enter,
  enter_level-same, enter_level-next,
}

Covers-leafs_of :
    (leafs : List (ℕ × ℕ)) (base : ℕ) (v : Visit) (vs : List Visit)
    → Covers leafs (leafs_of base (v ∷ vs))
    → LeafFound leafs base v × Covers leafs (leafs_of (base + 1) vs)
unfolding leafs_of
Covers-leafs_of leafs base v vs c = elim (Bool-cases (holds_leaf v)) [
  | inl e ↦
      let c' : Covers leafs
          (record { node_id = base; leaf = leaf v.visited } ∷ leafs_of (base + 1) vs) =
        rw e at c in
      unfold Covers in (λ h. c'.0, c'.1)
  | inr e ↦
      let c' : Covers leafs (leafs_of (base + 1) vs) = rw e at c in (λ h. absurd (ground arith), c')
]

Fresh-placed :
    (p : List ℕ) (l : ℕ) (t t' : Node) (vs : List Visit)
    → ((j : List ℕ) → peek j t' ≡ (if key_eq p j then some l else peek j t))
    → Apart p vs
    → Fresh t vs
    → Fresh t' vs
unfolding Fresh Apart
Fresh-placed p l t t' [] h a f = tt
Fresh-placed p l t t' (v ∷ vs) h a f = (
  ground (arith, h v.parent_path, f.0),
  ground (arith, h v.path, a.0, f.1),
  f.2,
  Fresh-placed p l t t' vs h a.1 f.3,
)

key_eq-Apart : (p q j : List ℕ) → key_eq p j ≡ true → key_eq p q ≡ false → key_eq q j ≡ false
key_eq-Apart p q j e a = grind (arith, key_eq_iff p j, key_eq_iff q j, key_eq_iff p q)

hit-Apart :
    (p : List ℕ) (vs : List Visit) (j : List ℕ) (o : Option ℕ)
    → key_eq p j ≡ true
    → Apart p vs
    → hit vs j o ≡ o
unfolding hit Apart
hit-Apart p [] j o e a = refl
hit-Apart p (v ∷ vs) j o e a = rw (key_eq-Apart p v.path j e a.0) (hit-Apart p vs j o e a.1)

hit_first :
    (v : Visit) (vs : List Visit) (j : List ℕ) (o o' : Option ℕ)
    → Apart v.path vs
    → o' ≡ (if key_eq v.path j then some (leaf v.visited) else o)
    → hit vs j o' ≡ hit (v ∷ vs) j o
unfolding hit
hit_first v vs j o o' a e = elim (Bool-cases (key_eq v.path j)) [
  | inl f ↦ rw f (hit-Apart v.path vs j o' f a ∙ rw f at e)
  | inr f ↦ rw f (ap (hit vs j) (rw f at e))
]

pub place_level :
    (leafs : List (ℕ × ℕ)) (above here : List (ℕ × List ℕ)) (depth lid base : ℕ) (vs : List Visit)
    (t : Node)
    → Parents above vs
    → Covers leafs (leafs_of base vs)
    → lid + length vs < 2 ^ 64
    → Fresh t vs
    → Distinct vs
    → (t' : Node) × (place_all leafs (nodes_of depth lid base vs) (building depth above here t)
        ≡ ok (building depth above (register base vs here) t'))
      × ((j : List ℕ) → peek j t' ≡ hit vs j (peek j t))
unfolding nodes_of register Parents place_all Distinct hit Fresh
place_level leafs above here depth lid base [] t p c s f d = (t, refl, λ j. refl)
place_level leafs above here depth lid base (v ∷ vs) t p c s f d =
    let (found, c') = Covers-leafs_of leafs base v vs c in
    let one =
      place_node-placed leafs above here depth lid base v t p.0 found (omega arith) f.1 f.2 in
    let seen = λ (j : List ℕ). peek-placed v t j f.0 f.1 f.2 in
    let bound : next_lid lid v + length vs < 2 ^ 64 = ground arith in
    let (t', all, sees) =
      place_level leafs above (emplace base v.path here) depth (next_lid lid v) (base + 1) vs
        (placed v t) p.1 c' bound
        (Fresh-placed v.path (leaf v.visited) t (placed v t) vs seen d.0 f.3) d.1 in
    (t', rw one all, λ j. sees j ∙ hit_first v vs j (peek j t) _ d.0 (seen j))

-- What the level registers: its nodes are found, and the numbers behind it are free.
abbrev pub FreeFrom : ℕ → List (ℕ × List ℕ) → Type 0
FreeFrom base here = (k : ℕ) → base ≤ k → find k here ≡ none

pub FreeFrom-nil : (base : ℕ) → FreeFrom base []
unfolding find
FreeFrom-nil base k h = refl

find-register :
    (base k : ℕ) (vs : List Visit) (here : List (ℕ × List ℕ))
    → k < base
    → find k (register base vs here) ≡ find k here
unfolding register
find-register base k [] here h = refl
find-register base k (v ∷ vs) here h =
    find-register (base + 1) k vs (emplace base v.path here) (omega arith)
    ∙ find-emplace_ne base k v.path here (ground arith)

-- The children of the nodes of a level find their parents.
Parents-append :
    (above : List (ℕ × List ℕ)) (vs ws : List Visit)
    → Parents above vs
    → Parents above ws
    → Parents above (vs ++ ws)
unfolding Parents
Parents-append above [] ws a b = b
Parents-append above (v ∷ vs) ws a b = (a.0, Parents-append above vs ws a.1 b)

pub Parents-below :
    (above : List (ℕ × List ℕ)) (rs : Routes) (id : ℕ) (p : List ℕ)
    → find id above ≡ some p
    → Parents above (below rs id p)
unfolding Parents
Parents-below above end id p h = tt
Parents-below above (route c n rs) id p h = (h, Parents-below above rs id p h)

pub Parents-next_visits :
    (base : ℕ) (vs : List Visit) (here : List (ℕ × List ℕ))
    → FreeFrom base here
    → Parents (register base vs here) (next_visits base vs)
unfolding register next_visits
Parents-next_visits base [] here free = unfold Parents in tt
Parents-next_visits base (v ∷ vs) here free =
    let here' = emplace base v.path here in
    let found =
      find-register (base + 1) base vs here' (omega arith)
      ∙ find-emplace_self base v.path here (free base (omega arith)) in
    let free' : FreeFrom (base + 1) here' =
      λ k h. find-emplace_ne base k v.path here (ground arith) ∙ free k (omega arith) in
    Parents-append (register (base + 1) vs here') (below (routes v.visited) base v.path)
      (next_visits (base + 1) vs)
      (Parents-below (register (base + 1) vs here') (routes v.visited) base v.path found)
      (Parents-next_visits (base + 1) vs here' free')

-- The first node of a level enters it.
pub place_level-enter :
    (leafs : List (ℕ × ℕ)) (above here : List (ℕ × List ℕ)) (depth lid base : ℕ) (v : Visit)
    (ds : List NodeSerialization) (t : Node)
    → place_all leafs (node_of (depth + 1) lid base v ∷ ds) (building depth above here t)
      ≡ place_all leafs (node_of (depth + 1) lid base v ∷ ds) (building (depth + 1) here [] t)
unfolding place_all
place_level-enter leafs above here depth lid base v ds t =
    let same =
      place_node-enter (node_of (depth + 1) lid base v) leafs (building depth above here t)
        (building (depth + 1) here [] t)
        (enter_level-next depth above here t ∙ sym (enter_level-same (depth + 1) here [] t)) in
    ap (and_place (place_all leafs ds)) same
