-- ===== src/Index/Serialization/Prefix.antt =====
-- Keys that begin with the path of a node, and what the node's subtree answers to them.
use yet_another_storage.Prelude.{
  ℕ, ◌<◌, ◌≡◌, refl, Bool, true, false, ◌&&◌, Option, List, [], ◌∷◌, ◌++◌, length, arith, ◌==◌,
  if◌then◌else◌, ◌⊎◌, inl, inr, Bool-cases,
}
use yet_another_storage.Trie.{Node}
use yet_another_storage.Trie.Lookup.{key_eq}
use yet_another_storage.Index.Serialization.Peek.{peek, snoc}

unfoldable pub is_prefix : List ℕ → List ℕ → Bool
is_prefix [] j = true
is_prefix (c ∷ p) [] = false
is_prefix (c ∷ p) (d ∷ j) = (c == d) && is_prefix p j

-- The answer of the trie at a path to the keys that begin with it, and another to the others.
unfoldable pub under : List ℕ → Node → List ℕ → Option ℕ → Option ℕ
under [] t j o = peek j t
under (c ∷ p) t [] o = o
under (c ∷ p) t (d ∷ j) o = if c == d then under p t j o else o

pub prefix-cases : (p j : List ℕ) → (is_prefix p j ≡ false) ⊎ ((k : List ℕ) × (j ≡ p ++ k))
unfolding is_prefix
prefix-cases [] j = inr (j, refl)
prefix-cases (c ∷ p) [] = inl refl
prefix-cases (c ∷ p) (d ∷ j) = elim (Bool-cases (c == d)) [
  | inl e ↦ elim (prefix-cases p j) [
    | inl n ↦ inl (ground arith)
    | inr (k, s) ↦ let same : c ≡ d = ground arith in inr (k, cc)
  ]
  | inr e ↦ inl (ground arith)
]

pub under-outside :
    (p : List ℕ) (t : Node) (j : List ℕ) (o : Option ℕ) → is_prefix p j ≡ false → under p t j o ≡ o
unfolding is_prefix under
under-outside [] t j o n = absurd (ground arith)
under-outside (c ∷ p) t [] o n = refl
under-outside (c ∷ p) t (d ∷ j) o n = ground (arith, under-outside p t j o)

pub under-append :
    (p : List ℕ) (t : Node) (k : List ℕ) (o : Option ℕ) → under p t (p ++ k) o ≡ peek k t
unfolding under
under-append [] t k o = refl
under-append (c ∷ p) t k o = ground (arith, under-append p t k o)

pub under-snoc :
    (p : List ℕ) (c d : ℕ) (t : Node) (k : List ℕ) (o : Option ℕ)
    → under (snoc p c) t (p ++ (d ∷ k)) o ≡ (if c == d then peek k t else o)
unfolding under
under-snoc [] c d t k o = refl
under-snoc (e ∷ p) c d t k o = ground (arith, under-snoc p c d t k o)

pub is_prefix-snoc :
    (p : List ℕ) (c : ℕ) (j : List ℕ) → is_prefix p j ≡ false → is_prefix (snoc p c) j ≡ false
unfolding is_prefix
is_prefix-snoc [] c j n = absurd (ground arith)
is_prefix-snoc (e ∷ p) c [] n = refl
is_prefix-snoc (e ∷ p) c (d ∷ j) n = ground (arith, is_prefix-snoc p c j)

pub is_prefix-longer : (p j : List ℕ) → length j < length p → is_prefix p j ≡ false
unfolding is_prefix
is_prefix-longer [] j h = absurd (omega arith)
is_prefix-longer (c ∷ p) [] h = refl
is_prefix-longer (c ∷ p) (d ∷ j) h = let rest = is_prefix-longer p j (omega arith) in ground arith

pub is_prefix-apart :
    (p q k : List ℕ) → length p ≡ length q → key_eq p q ≡ false → is_prefix q (p ++ k) ≡ false
unfolding is_prefix key_eq
is_prefix-apart [] [] k l n = absurd (ground arith)
is_prefix-apart [] (d ∷ q) k l n = absurd (omega arith)
is_prefix-apart (c ∷ p) [] k l n = absurd (omega arith)
is_prefix-apart (c ∷ p) (d ∷ q) k l n = ground (arith, is_prefix-apart p q k (omega arith))

pub key_eq-outside : (p j : List ℕ) → is_prefix p j ≡ false → key_eq p j ≡ false
unfolding is_prefix key_eq
key_eq-outside [] j n = absurd (ground arith)
key_eq-outside (c ∷ p) [] n = refl
key_eq-outside (c ∷ p) (d ∷ j) n = ground (arith, key_eq-outside p j)

pub key_eq_self : (p : List ℕ) → key_eq p (p ++ []) ≡ true
unfolding key_eq
key_eq_self [] = refl
key_eq_self (c ∷ p) = ground (arith, key_eq_self p)

pub key_eq-longer : (p : List ℕ) (c : ℕ) (k : List ℕ) → key_eq p (p ++ (c ∷ k)) ≡ false
unfolding key_eq
key_eq-longer [] c k = refl
key_eq-longer (d ∷ p) c k = ground (arith, key_eq-longer p c k)

key_eq-snoc_nil : (q : List ℕ) (d : ℕ) → key_eq [] (snoc q d) ≡ false
unfolding key_eq
key_eq-snoc_nil [] d = refl
key_eq-snoc_nil (e ∷ q) d = refl

key_eq-nil_snoc : (q : List ℕ) (d : ℕ) → key_eq (snoc q d) [] ≡ false
unfolding key_eq
key_eq-nil_snoc [] d = refl
key_eq-nil_snoc (e ∷ q) d = refl

pub key_eq-snoc : (p q : List ℕ) (c d : ℕ) → key_eq (snoc p c) (snoc q d) ≡ (key_eq p q && (c == d))
unfolding key_eq
key_eq-snoc [] [] c d = ground arith
key_eq-snoc [] (e ∷ q) c d = ground (arith, key_eq-snoc_nil q d)
key_eq-snoc (e ∷ p) [] c d = ground (arith, key_eq-nil_snoc p c)
key_eq-snoc (e ∷ p) (f ∷ q) c d = ground (arith, key_eq-snoc p q c d)
