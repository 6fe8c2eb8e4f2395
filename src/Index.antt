-- ===== src/Index.antt =====
-- include/storage/lib/inverted_index/InvertedIndexHelper.hpp: the trie behind a guard for empty
-- keys, and the flag by which the volume knows that the index has to be saved.
pub mod Refinement
pub mod Serialization
pub mod Saved
use yet_another_storage.Prelude.{ℕ, Bool, true, false, List, [], ◌∷◌}
use yet_another_storage.Trie
use yet_another_storage.Trie.{Node, non_exist_leaf, new_node}

pub record InvertedIndex : Type 0 where
  pub engine : Node
  pub is_changed : Bool

-- The default constructor.
unfoldable pub new_index : ℕ → InvertedIndex
unfolding new_node
new_index bits = record { engine = new_node bits; is_changed = false }

module _ (bits : ℕ) where
  -- `Insert`
  unfoldable pub insert : List ℕ → ℕ → InvertedIndex → InvertedIndex × Bool
  insert [] leaf index = (index, false)
  insert (ch ∷ key) leaf index =
      (record { engine = Trie.insert bits (ch ∷ key) leaf index.engine; is_changed = true }, true)

  -- `Get`
  unfoldable pub get : List ℕ → InvertedIndex → ℕ
  get [] index = non_exist_leaf bits
  get (ch ∷ key) index = Trie.get bits (ch ∷ key) index.engine

  -- `Delete`
  unfoldable pub delete : List ℕ → InvertedIndex → InvertedIndex × Bool
  delete [] index = (index, false)
  delete (ch ∷ key) index =
      let (engine', deleted) = Trie.delete bits (ch ∷ key) index.engine in
      (record { engine = engine'; is_changed = true }, deleted)

  -- `HasKey`
  unfoldable pub has_key : List ℕ → InvertedIndex → Bool
  has_key [] index = false
  has_key (ch ∷ key) index = Trie.has_key bits (ch ∷ key) index.engine

-- `FindMaxSubKey`
unfoldable pub find_max_sub_key : List ℕ → InvertedIndex → ℕ
find_max_sub_key [] index = 0
find_max_sub_key (ch ∷ key) index = Trie.find_max_sub_key (ch ∷ key) index.engine
