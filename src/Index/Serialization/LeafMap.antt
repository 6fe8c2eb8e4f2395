-- ===== src/Index/Serialization/LeafMap.antt =====
-- The map of the leaves that `Deserialize` reads first.
use yet_another_storage.Prelude.{
  ℕ, zero, suc, ◌+◌, ◌≤◌, ◌<◌, ◌≡◌, refl, ◌∙◌, false, none, some, List, [], ◌∷◌, ◌++◌, length, ◌==◌,
  arith, Bool-cases, inl, inr,
}
use yet_another_storage.Index.Serialization.{LeafSerialization}
use yet_another_storage.Index.Serialization.Visits.{
  Visit, next_visits, holds_leaf, leafs_of, end_lid, all_levels,
}
use yet_another_storage.Index.Serialization.Deserialize.{find, emplace}
use yet_another_storage.Index.Serialization.Cursor.{collect}

pub find-emplace_ne :
    {A : Type 0} (id k : ℕ) (a : A) (m : List (ℕ × A))
    → (id == k) ≡ false
    → find k (emplace id a m) ≡ find k m
unfolding emplace find
find-emplace_ne id k a m e = ground arith

pub find-emplace_self :
    {A : Type 0} (id : ℕ) (a : A) (m : List (ℕ × A))
    → find id m ≡ none
    → find id (emplace id a m) ≡ some a
unfolding emplace find
find-emplace_self id a m e = ground arith

-- The ids of the leaves grow, from a bound on.
unfoldable pub Increasing : ℕ → List LeafSerialization → Type 0
Increasing lo [] = Unit
Increasing lo (l ∷ ls) = (lo ≤ l.node_id) × Increasing (l.node_id + 1) ls

-- The map holds every leaf of the list.
unfoldable pub Covers : List (ℕ × ℕ) → List LeafSerialization → Type 0
Covers m [] = Unit
Covers m (l ∷ ls) = (find l.node_id m ≡ some l.leaf) × Covers m ls

pub Covers-append :
    (m : List (ℕ × ℕ)) (ls ks : List LeafSerialization)
    → Covers m (ls ++ ks)
    → Covers m ls × Covers m ks
unfolding Covers
Covers-append m [] ks c = (tt, c)
Covers-append m (l ∷ ls) ks c = let (a, b) = Covers-append m ls ks c.1 in ((c.0, a), b)

find-collect :
    (lo k : ℕ) (ls : List LeafSerialization) (m : List (ℕ × ℕ))
    → Increasing lo ls
    → k < lo
    → find k (collect ls m) ≡ find k m
unfolding Increasing collect
find-collect lo k [] m i h = refl
find-collect lo k (l ∷ ls) m i h =
    let ne : (l.node_id == k) ≡ false = ground arith in
    find-collect (l.node_id + 1) k ls (emplace l.node_id l.leaf m) i.1 (omega (arith, i.0))
    ∙ find-emplace_ne l.node_id k l.leaf m ne

pub collect-Covers :
    (lo : ℕ) (ls : List LeafSerialization) (m : List (ℕ × ℕ))
    → Increasing lo ls
    → ((k : ℕ) → lo ≤ k → find k m ≡ none)
    → Covers (collect ls m) ls
unfolding Increasing collect Covers
collect-Covers lo [] m i free = tt
collect-Covers lo (l ∷ ls) m i free =
    let m' = emplace l.node_id l.leaf m in
    (
      find-collect (l.node_id + 1) l.node_id ls m' i.1 (omega arith)
          ∙ find-emplace_self l.node_id l.leaf m (free l.node_id i.0),
      collect-Covers (l.node_id + 1) ls m' i.1 (λ k h.
          find-emplace_ne l.node_id k l.leaf m (ground arith) ∙ free k (omega (arith, i.0))),
    )

Increasing-le :
    (lo base : ℕ) (ls : List LeafSerialization) → lo ≤ base → Increasing base ls → Increasing lo ls
unfolding Increasing
Increasing-le lo base [] h i = tt
Increasing-le lo base (l ∷ ls) h i = (omega (arith, i.0), i.1)

Increasing-leafs_of :
    (lo base : ℕ) (vs : List Visit) (ls : List LeafSerialization)
    → lo ≤ base
    → Increasing (base + length vs) ls
    → Increasing lo (leafs_of base vs ++ ls)
unfolding leafs_of Increasing
Increasing-leafs_of lo base [] ls h i =
    let e : base + 0 ≡ base = omega arith in Increasing-le lo base ls h (rw e at i)
Increasing-leafs_of lo base (v ∷ vs) ls h i =
    let e : base + suc (length vs) ≡ base + 1 + length vs = omega arith in
    let i' : Increasing (base + 1 + length vs) ls = rw e at i in
    elim (Bool-cases (holds_leaf v)) [
      | inl f ↦ rw f (h, Increasing-leafs_of (base + 1) (base + 1) vs ls (omega arith) i')
      | inr f ↦ rw f (Increasing-leafs_of lo (base + 1) vs ls (omega arith) i')
    ]

pub all_levels-Increasing :
    (fuel depth base : ℕ) (vs : List Visit) (lid : ℕ)
    → Increasing base (all_levels fuel depth base vs lid).0
unfolding all_levels
all_levels-Increasing zero depth base vs lid = unfold Increasing in tt
all_levels-Increasing (suc fuel) depth base [] lid = unfold Increasing in tt
all_levels-Increasing (suc fuel) depth base (v ∷ vs) lid =
    Increasing-leafs_of base base (v ∷ vs) _ (omega arith) (
      all_levels-Increasing fuel (depth + 1) (base + length (v ∷ vs)) (next_visits base (v ∷ vs))
        (end_lid lid (v ∷ vs)))
