-- ===== src/Index/Serialization/PlaceLevels.antt =====
-- `Deserialize` places the nodes of all levels: the trie answers as the one that was saved.
use yet_another_storage.Prelude.{
  ℕ, zero, suc, ◌+◌, ◌^◌, ◌<◌, ◌≤◌, ◌≡◌, refl, ap, sym, ◌∙◌, Option, List, [], ◌∷◌, length, arith,
}
use yet_another_storage.Exec.{ok}
use yet_another_storage.Trie.{Node}
use yet_another_storage.Index.Serialization.{NodeSerialization}
use yet_another_storage.Index.Serialization.Deserialize.{Building}
use yet_another_storage.Index.Serialization.Peek.{peek}
use yet_another_storage.Index.Serialization.Visits.{
  Visit, next_visits, leafs_of, nodes_of, end_lid, all_levels, total, total-next_visits,
  length-le-total, Within, Within-next_visits, Within-zero,
}
use yet_another_storage.Index.Serialization.Levels.{end_lid-le}
use yet_another_storage.Index.Serialization.LeafMap.{Covers, Covers-append}
use yet_another_storage.Index.Serialization.Cursor.{place_all, place_all-append}
use yet_another_storage.Index.Serialization.Ranges.{AllSerializable, AllSerializable-next_visits}
use yet_another_storage.Index.Serialization.Answers.{
  answer, Distinct, AtDepth, AtDepth-next_visits, answer-next_visits,
}
use yet_another_storage.Index.Serialization.Fresh.{
  Fresh, Shallow, Fresh-next_visits, hit-Present, hit-AtDepth, Distinct-next_visits,
}
use yet_another_storage.Index.Serialization.Place.{building, register, Parents}
use yet_another_storage.Index.Serialization.PlaceLevel.{
  place_level, place_level-enter, Parents-next_visits, FreeFrom-nil,
}

-- The descriptors are placed, and the trie answers as the function.
abbrev pub Placed : List (ℕ × ℕ) → List NodeSerialization → Building → (List ℕ → Option ℕ) → Type 0
Placed leafs ds b f =
    (b' : Building) × (place_all leafs ds b ≡ ok b') × ((j : List ℕ) → peek j b'.trie ≡ f j)

Placed-nothing :
    (leafs : List (ℕ × ℕ)) (b b' : Building) (f : List ℕ → Option ℕ)
    → b.trie ≡ b'.trie
    → Placed leafs [] b f
    → Placed leafs [] b' f
unfolding place_all
Placed-nothing leafs b b' f e (c, placed, h) =
    let same : b ≡ c = cc in (b', refl, λ j. ap (peek j) (sym e ∙ ap (λ x. x.trie) same) ∙ h j)

-- The step to the next level may come before its first node.
Placed-enter :
    (leafs : List (ℕ × ℕ)) (above here : List (ℕ × List ℕ)) (fuel depth base lid : ℕ)
    (vs : List Visit) (t : Node) (f : List ℕ → Option ℕ)
    → Placed leafs (all_levels fuel (depth + 1) base vs lid).1 (building (depth + 1) here [] t) f
    → Placed leafs (all_levels fuel (depth + 1) base vs lid).1 (building depth above here t) f
unfolding all_levels nodes_of
Placed-enter leafs above here zero depth base lid vs t f p =
    Placed-nothing leafs (building (depth + 1) here [] t) (building depth above here t) f refl p
Placed-enter leafs above here (suc fuel) depth base lid [] t f p =
    Placed-nothing leafs (building (depth + 1) here [] t) (building depth above here t) f refl p
Placed-enter leafs above here (suc fuel) depth base lid (v ∷ vs) t f (b, placed, h) =
    (b, place_level-enter leafs above here depth lid base v _ t ∙ placed, h)

pub place_levels :
    (leafs : List (ℕ × ℕ)) (above : List (ℕ × List ℕ)) (fuel depth base lid bound : ℕ)
    (vs : List Visit) (t : Node)
    → Within fuel vs
    → AllSerializable bound vs
    → AtDepth (depth + 1) vs
    → Distinct vs
    → Parents above vs
    → Covers leafs (all_levels fuel (depth + 1) base vs lid).0
    → lid ≤ base
    → base + total vs < 2 ^ 64
    → Shallow depth t
    → Fresh t vs
    → Placed leafs
        (all_levels fuel (depth + 1) base vs lid).1
        (building (depth + 1) above [] t)
        (λ j. answer vs j (peek j t))
unfolding all_levels place_all answer
place_levels leafs above zero depth base lid bound [] t w s a d p c l h sh f =
    (building (depth + 1) above [] t, refl, λ j. refl)
place_levels leafs above zero depth base lid bound (v ∷ vs) t w s a d p c l h sh f =
    absurd (Within-zero v vs w)
place_levels leafs above (suc fuel) depth base lid bound [] t w s a d p c l h sh f =
    (building (depth + 1) above [] t, refl, λ j. refl)
place_levels leafs above (suc fuel) depth base lid bound (v ∷ vs) t w s a d p c l h sh f =
    let here = v ∷ vs in
    let next = next_visits base here in
    let base' = base + length here in
    let lid' = end_lid lid here in
    let sum = total-next_visits base here in
    let lengths = length-le-total here in
    let registered = register base here [] in
    let (c₀, c₁) =
      Covers-append leafs (leafs_of base here) (all_levels fuel (depth + 1 + 1) base' next lid').0
        c in
    let (t', all, sees) =
      place_level leafs above [] (depth + 1) lid base here t p c₀ (omega arith) f d in
    let shallow : Shallow (depth + 1) t' =
      λ j long. sees j ∙ hit-AtDepth (depth + 1) here j (peek j t) a long ∙ sh j (omega arith) in
    let rest =
      place_levels leafs registered fuel (depth + 1) base' lid' base' next t'
        (Within-next_visits fuel base here w)
        (AllSerializable-next_visits bound base' base here (omega arith) s)
        (AtDepth-next_visits (depth + 1) base here a) (Distinct-next_visits bound base here s d)
        (Parents-next_visits base here [] (FreeFrom-nil base)) c₁
        (omega (arith, end_lid-le lid here)) (omega arith) shallow
        (Fresh-next_visits t' (depth + 1) base here shallow a
          (hit-Present t' (λ j. peek j t) here (λ j q. rw (sees j) q))) in
    let (b', placed, sees') =
      Placed-enter leafs above registered fuel (depth + 1) base' lid' next t' _ rest in
    (
      b',
      place_all-append leafs (nodes_of (depth + 1) lid base here) _ _ _ all ∙ placed,
      λ j.
          sees' j
          ∙ ap (answer next j) (sees j)
          ∙ answer-next_visits (depth + 1) base here j (peek j t) a d (λ long. sh j (omega arith)),
    )
