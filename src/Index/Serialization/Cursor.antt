-- ===== src/Index/Serialization/Cursor.antt =====
-- `Deserialize` reads back what `Serialize` has saved: the descriptors in their order.
use yet_another_storage.Prelude.{
  ℕ, ◌≡◌, refl, ap, ◌∙◌, Bool, false, some, List, [], ◌∷◌, ◌++◌, length, ltb, arith, length-append,
}
use mathlib.Core.List.{append_assoc, append-nil}
use yet_another_storage.Exec.{Result, ok, throw, fault}
use yet_another_storage.Bytes.Slice.{drop-append}
use yet_another_storage.Bytes.Packed.{
  Packed, sizeof, pack, unpack, save_as_bytes, load_from_bytes, InRange, unpack-pack_append,
  length-save_as_bytes,
}
use yet_another_storage.Index.Serialization.{
  NodeSerialization, node_serialization, LeafSerialization, leaf_serialization,
}
use yet_another_storage.Index.Serialization.Serialize.{save_all}
use yet_another_storage.Index.Serialization.Deserialize.{
  load, emplace, deserialize_leafs, Building, place_node, deserialize_nodes,
}

abbrev pub AllInRange : {H : Type 0} → Packed H → List H → Type 0
AllInRange P [] = Unit
AllInRange P (h ∷ hs) = InRange P h × AllInRange P hs

load_from_bytes-append :
    {H : Type 0} (P : Packed H) (h : H) (ys : List ℕ)
    → InRange P h
    → load_from_bytes P (save_as_bytes P h ++ ys) ≡ h
unfolding load_from_bytes save_as_bytes
load_from_bytes-append P h ys i =
    let read : unpack (P.widths ++ []) (pack P.widths (P.fields h) ++ ys) ≡ P.fields h ++ [] =
      unpack-pack_append P.widths [] (P.fields h) ys i in
    let read' : unpack P.widths (pack P.widths (P.fields h) ++ ys) ≡ P.fields h =
      rw (append-nil, append-nil) at read in
    ap P.make read' ∙ P.make-fields h

-- What is saved is loaded, and the cursor stands behind it.
pub load-save_as_bytes :
    {H : Type 0} (P : Packed H) (h : H) (ys : List ℕ)
    → InRange P h
    → load P (save_as_bytes P h ++ ys) ≡ some (h, ys)
unfolding load
load-save_as_bytes P h ys i =
    let size = length-save_as_bytes P h i in
    let enough : ltb (length (save_as_bytes P h ++ ys)) (sizeof P.widths) ≡ false =
      ground (arith, length-append (save_as_bytes P h) ys) in
    rw (enough, load_from_bytes-append P h ys i)
      (rw (← size) (rw (drop-append (save_as_bytes P h) ys) refl))

-- The map of the leaves that are read.
unfoldable pub collect : List LeafSerialization → List (ℕ × ℕ) → List (ℕ × ℕ)
collect [] m = m
collect (l ∷ ls) m = collect ls (emplace l.node_id l.leaf m)

pub deserialize_leafs-save_all :
    (u : ℕ → LeafSerialization) (b : Bool) (ls : List LeafSerialization) (ys : List ℕ)
    (m : List (ℕ × ℕ))
    → AllInRange leaf_serialization ls
    → deserialize_leafs u b (length ls) (save_all leaf_serialization ls ++ ys) m
      ≡ ok (collect ls m, ys)
unfolding deserialize_leafs save_all collect
deserialize_leafs-save_all u b [] ys m i = refl
deserialize_leafs-save_all u b (l ∷ ls) ys m i = rw append_assoc (
    rw
      (
        load-save_as_bytes leaf_serialization l (save_all leaf_serialization ls ++ ys) i.0,
        deserialize_leafs,
      )
      (deserialize_leafs-save_all u false ls ys (emplace l.node_id l.leaf m) i.1))

-- The loop over the nodes, on the descriptors that are read.
abbrev pub and_place : (Building → Result Building) → Result Building → Result Building
and_place f (ok b) = f b
and_place f (throw e) = throw e
and_place f (fault e) = fault e

pub and_place-eq-ok :
    (f : Building → Result Building) (r : Result Building) {b' : Building}
    → and_place f r ≡ ok b'
    → (b : Building) × (r ≡ ok b) × (f b ≡ ok b')
and_place-eq-ok f (ok b) h = (b, refl, h)
and_place-eq-ok f (throw e) h = cc
and_place-eq-ok f (fault e) h = cc

unfoldable pub place_all : List (ℕ × ℕ) → List NodeSerialization → Building → Result Building
place_all leafs [] b = ok b
place_all leafs (d ∷ ds) b = and_place (place_all leafs ds) (place_node d leafs b)

pub deserialize_nodes-save_all :
    (leafs : List (ℕ × ℕ)) (ds : List NodeSerialization) (ys : List ℕ) (b b' : Building)
    → AllInRange node_serialization ds
    → place_all leafs ds b ≡ ok b'
    → deserialize_nodes leafs (length ds) (save_all node_serialization ds ++ ys) b ≡ ok b'.trie
unfolding deserialize_nodes save_all place_all
deserialize_nodes-save_all leafs [] ys b b' i e = ground arith
deserialize_nodes-save_all leafs (d ∷ ds) ys b b' i e =
    let (b₁, placed, rest) = and_place-eq-ok (place_all leafs ds) (place_node d leafs b) e in
    rw append_assoc (
      rw
        (
          load-save_as_bytes node_serialization d (save_all node_serialization ds ++ ys) i.0,
          deserialize_nodes,
        )
        (rw placed (deserialize_nodes-save_all leafs ds ys b₁ b' i.1 rest)))

pub place_all-append :
    (leafs : List (ℕ × ℕ)) (ds es : List NodeSerialization) (b b' : Building)
    → place_all leafs ds b ≡ ok b'
    → place_all leafs (ds ++ es) b ≡ place_all leafs es b'
unfolding place_all
place_all-append leafs [] es b b' e = let same : b ≡ b' = cc in ap (place_all leafs es) same
place_all-append leafs (d ∷ ds) es b b' e =
    let (b₁, placed, rest) = and_place-eq-ok (place_all leafs ds) (place_node d leafs b) e in
    rw placed (place_all-append leafs ds es b₁ b' rest)
