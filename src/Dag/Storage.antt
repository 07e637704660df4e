-- ===== src/Dag/Storage.antt =====
-- `HybridDagStorage` of irondag-blockchain/src/consensus/storage.rs without a database.
pub mod Pruned
use Prim.Native.Nat.{ℕ, zero, suc, ◌+◌, ◌-◌}
use mathlib.Core.Bool.{true, false, not, ◌&&◌}
use mathlib.Core.List.{List, [], ◌∷◌, ◌++◌}
use mathlib.Core.Option.{Option, none, some}
use iron_dag.Prelude.Tests.{ltb, leb, if◌then◌else◌}
use iron_dag.Prelude.Lists.{length}
use iron_dag.Prelude.Eq.{nat_eq}
use iron_dag.Prelude.Map.{Map, get, insert, remove, contains_key}
use iron_dag.Prelude.HashSet.{contains, add, delete}

pub record Block : Type 0 where
  pub hash : ℕ
  pub parent_hashes : List ℕ
  pub block_number : ℕ
  pub timestamp : ℕ

pub record DagStorage : Type 0 where
  pub hot_blocks : Map ℕ Block
  pub hot_blocks_order : List ℕ
  pub hot_children : Map ℕ (List ℕ)
  pub hot_blue_set : List ℕ
  pub hot_blue_scores : Map ℕ ℕ
  pub hot_cache_size : ℕ
  pub confirmations : ℕ
  pub finalized_blocks : List ℕ
  pub blocks_since_checkpoint : ℕ

-- `HybridDagStorage::new` with a cache size and the confirmations for a checkpoint.
unfoldable pub new_storage : ℕ → ℕ → DagStorage
new_storage size confirmations = record {
  hot_blocks = [];
  hot_blocks_order = [];
  hot_children = [];
  hot_blue_set = [];
  hot_blue_scores = [];
  hot_cache_size = size;
  confirmations = confirmations;
  finalized_blocks = [];
  blocks_since_checkpoint = 0;
}

unfoldable pub get_block : ℕ → DagStorage → Option Block
get_block h s = get h s.hot_blocks

abbrev pub or_empty : Option (List ℕ) → List ℕ
or_empty none = []
or_empty (some xs) = xs

unfoldable pub get_children : ℕ → DagStorage → List ℕ
get_children h s = or_empty (get h s.hot_children)

unfoldable pub set_children : ℕ → List ℕ → DagStorage → DagStorage
set_children h children s = record s { hot_children = insert h children s.hot_children }

unfoldable pub add_to_blue_set : ℕ → DagStorage → DagStorage
add_to_blue_set h s = record s { hot_blue_set = add h s.hot_blue_set }

-- A block leaves all the hot maps and counts as finalized.
unfoldable pub evict : ℕ → DagStorage → DagStorage
evict h s = record s {
  hot_blocks = remove h s.hot_blocks;
  hot_children = remove h s.hot_children;
  hot_blue_set = delete h s.hot_blue_set;
  hot_blue_scores = remove h s.hot_blue_scores;
  finalized_blocks = add h s.finalized_blocks;
}

-- The loop of `prune_hot_cache`: it pops the order from the front; a popped hash that is in the
-- cache is evicted and counted.
unfoldable pub evict_oldest : ℕ → List ℕ → DagStorage → DagStorage
unfolding evict
evict_oldest zero order s = record s { hot_blocks_order = order }
evict_oldest (suc n) [] s = record s { hot_blocks_order = [] }
evict_oldest (suc n) (h ∷ order) s = elim (contains_key h s.hot_blocks) [
  | true ↦ evict_oldest n order (evict h s)
  | false ↦ evict_oldest (suc n) order s
]

unfoldable pub prune_hot_cache : DagStorage → DagStorage
unfolding evict_oldest
prune_hot_cache s = evict_oldest (length s.hot_blocks - s.hot_cache_size) s.hot_blocks_order s

unfoldable pub add_block_hot : Block → DagStorage → DagStorage
add_block_hot b s = record s {
  hot_blocks = insert b.hash b s.hot_blocks;
  hot_blocks_order =
      if contains_key b.hash s.hot_blocks
      then s.hot_blocks_order
      else s.hot_blocks_order ++ b.hash ∷ [];
}

unfoldable pub add_block_storage : Block → DagStorage → DagStorage
unfolding add_block_hot prune_hot_cache
add_block_storage b s =
    let s' = add_block_hot b s in
    if ltb s'.hot_cache_size (length s'.hot_blocks) then prune_hot_cache s' else s'

-- `retain(|h| !set.contains(h))` on the eviction order.
unfoldable pub without : List ℕ → List ℕ → List ℕ
without gone [] = []
without gone (h ∷ hs) = if contains h gone then without gone hs else h ∷ without gone hs

unfoldable pub evict_all : List ℕ → DagStorage → DagStorage
unfolding evict
evict_all [] s = s
evict_all (h ∷ hs) s = evict_all hs (evict h s)

unfoldable pub prune_blocks_by_hash : List ℕ → DagStorage → DagStorage
unfolding evict_all without
prune_blocks_by_hash hashes s =
    let s' = evict_all hashes s in
    record s' { hot_blocks_order = without hashes s'.hot_blocks_order }

-- The hot blocks below a height that are not in the hot blue set.
unfoldable pub old_red : List ℕ → ℕ → Map ℕ Block → List ℕ
old_red blue threshold [] = []
old_red blue threshold ((h, b) ∷ m) =
    if not (contains h blue) && ltb b.block_number threshold
    then h ∷ old_red blue threshold m
    else old_red blue threshold m

-- The hot blue set is left alone here: what is pruned is not in it.
unfoldable pub evict_red : List ℕ → DagStorage → DagStorage
evict_red [] s = s
evict_red (h ∷ hs) s = evict_red hs (record s {
  hot_blocks = remove h s.hot_blocks;
  hot_children = remove h s.hot_children;
  hot_blue_scores = remove h s.hot_blue_scores;
  finalized_blocks = add h s.finalized_blocks;
})

-- With the number of blocks that were pruned.
unfoldable pub prune_red_blocks : ℕ → ℕ → DagStorage → DagStorage × ℕ
unfolding old_red evict_red without
prune_red_blocks current_height finality_depth s =
    if leb current_height finality_depth
    then (s, 0)
    else let gone = old_red s.hot_blue_set (current_height - finality_depth) s.hot_blocks in
      let s' = evict_red gone s in
      (record s' { hot_blocks_order = without gone s'.hot_blocks_order }, length gone)

unfoldable pub clear_storage : DagStorage → DagStorage
clear_storage s = record s {
  hot_blocks = [];
  hot_blocks_order = [];
  hot_children = [];
  hot_blue_set = [];
  hot_blue_scores = [];
  finalized_blocks = [];
  blocks_since_checkpoint = 0;
}

unfoldable pub increment_checkpoint_counter : DagStorage → DagStorage
increment_checkpoint_counter s = record s {
  blocks_since_checkpoint = s.blocks_since_checkpoint + 1;
}

unfoldable pub reset_checkpoint_counter : DagStorage → DagStorage
reset_checkpoint_counter s = record s { blocks_since_checkpoint = 0 }
