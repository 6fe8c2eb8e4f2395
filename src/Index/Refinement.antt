-- ===== src/Index/Refinement.antt =====
-- The inverted index implements a map from non-empty keys to leaves.
use yet_another_storage.Prelude.{
  ℕ, ◌≡◌, refl, Bool, true, false, List, [], ◌∷◌, arith, if◌then◌else◌, ◌↔◌, ◌≢◌,
}
use yet_another_storage.Trie.{non_exist_leaf}
use yet_another_storage.Trie.Lookup
use yet_another_storage.Trie.Lookup.{key_eq}
use yet_another_storage.Index.{InvertedIndex, new_index, insert, get, delete, has_key}

-- The calls that change an index.
pub data Change : Type 0 where
  put : List ℕ → ℕ → Change
  remove : List ℕ → Change

-- The abstract index: the leaf of every key, where the greatest leaf stands for none.
abbrev pub LeafMap : Type 0
LeafMap = List ℕ → ℕ

unfoldable pub is_empty : List ℕ → Bool
is_empty [] = true
is_empty (c ∷ k) = false

abbrev pub update : List ℕ → ℕ → LeafMap → LeafMap
update k l m j = if is_empty k then m j else if key_eq k j then l else m j

module _ (bits : ℕ) where
  abbrev pub change_map : LeafMap → Change → LeafMap
  change_map m (put k l) = update k l m
  change_map m (remove k) = update k (non_exist_leaf bits) m

  abbrev pub change_index : InvertedIndex → Change → InvertedIndex
  change_index x (put k l) = (insert bits k l x).0
  change_index x (remove k) = (delete bits k x).0

  unfoldable pub run_map : List Change → LeafMap → LeafMap
  run_map [] m = m
  run_map (c ∷ cs) m = run_map cs (change_map m c)

  unfoldable pub run_index : List Change → InvertedIndex → InvertedIndex
  run_index [] x = x
  run_index (c ∷ cs) x = run_index cs (change_index x c)

  -- One call changes what `Get` sees as the abstract map changes.
  get-change :
      (c : Change) (x : InvertedIndex) (m : LeafMap)
      → ((j : List ℕ) → get bits j x ≡ m j)
      → (j : List ℕ) → get bits j (change_index x c) ≡ change_map m c j
  unfolding get insert delete is_empty key_eq
  get-change (put [] l) x m h j = h j
  get-change (remove []) x m h j = h j
  get-change (put (c ∷ k) l) x m h [] = h []
  get-change (put (c ∷ k) l) x m h (d ∷ j) =
      ground (arith, Lookup.get-insert bits (c ∷ k) (d ∷ j) l x.engine, h (d ∷ j))
  get-change (remove (c ∷ k)) x m h [] = h []
  get-change (remove (c ∷ k)) x m h (d ∷ j) =
      ground (arith, Lookup.get-delete bits (c ∷ k) (d ∷ j) x.engine, h (d ∷ j))

  -- After any calls of `Insert` and `Delete`, `Get` of every key finds what the abstract map holds
  -- after the same calls, if it did so before.
  pub get-run_index :
      (cs : List Change) (x : InvertedIndex) (m : LeafMap)
      → ((j : List ℕ) → get bits j x ≡ m j)
      → (j : List ℕ) → get bits j (run_index cs x) ≡ run_map cs m j
  unfolding run_index run_map
  get-run_index [] x m h j = h j
  get-run_index (c ∷ cs) x m h j =
      get-run_index cs (change_index x c) (change_map m c) (get-change c x m h) j

  -- A new index holds no key.
  pub get-new_index : (j : List ℕ) → get bits j (new_index bits) ≡ non_exist_leaf bits
  unfolding get new_index
  get-new_index [] = refl
  get-new_index (c ∷ j) = Lookup.get_new bits (c ∷ j)

  -- `HasKey` holds exactly if `Get` finds a leaf.
  pub has_key_iff :
      (j : List ℕ) (x : InvertedIndex)
      → (has_key bits j x ≡ true) ↔ (get bits j x ≢ non_exist_leaf bits)
  unfolding has_key get
  has_key_iff [] x = ground arith
  has_key_iff (c ∷ j) x = Lookup.has_key_iff bits (c ∷ j) x.engine

  changed-run_index :
      (cs : List Change) (x : InvertedIndex)
      → x.is_changed ≡ true
      → (run_index cs x).is_changed ≡ true
  unfolding run_index insert delete
  changed-run_index [] x h = h
  changed-run_index (put [] l ∷ cs) x h = changed-run_index cs x h
  changed-run_index (remove [] ∷ cs) x h = changed-run_index cs x h
  changed-run_index (put (c ∷ k) l ∷ cs) x h = changed-run_index cs (insert bits (c ∷ k) l x).0 refl
  changed-run_index (remove (c ∷ k) ∷ cs) x h = changed-run_index cs (delete bits (c ∷ k) x).0 refl

  -- While the flag is not set, calls have left the trie as it was: there is nothing to save.
  pub unchanged-run_index :
      (cs : List Change) (x : InvertedIndex)
      → (run_index cs x).is_changed ≡ false
      → run_index cs x ≡ x
  unfolding run_index insert delete
  unchanged-run_index [] x h = refl
  unchanged-run_index (put [] l ∷ cs) x h = unchanged-run_index cs x h
  unchanged-run_index (remove [] ∷ cs) x h = unchanged-run_index cs x h
  unchanged-run_index (put (c ∷ k) l ∷ cs) x h =
      cc (changed-run_index cs (insert bits (c ∷ k) l x).0 refl)
  unchanged-run_index (remove (c ∷ k) ∷ cs) x h =
      cc (changed-run_index cs (delete bits (c ∷ k) x).0 refl)
