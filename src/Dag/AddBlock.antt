-- ===== src/Dag/AddBlock.antt =====
-- `GhostDAG::add_block`, `prune_below_checkpoint`, `prune_old_blocks` and `clear`. The checkpoints
-- themselves are written to the database, which is absent: `save_checkpoint` then does nothing and
-- succeeds, so the counter is reset.
pub mod Children
pub mod Pruning
pub mod Colour
use Prim.Native.Nat.{ℕ, ◌+◌}
use mathlib.Core.List.{List, [], ◌∷◌, ◌++◌}
use mathlib.Core.Option.{none, some}
use Prim.Native.Nat.{Ordering}
use iron_dag.Prelude.Tests.{ltb, leb, if◌then◌else◌}
use iron_dag.Prelude.Lists.{length, is_empty, take, drop}
use iron_dag.Prelude.Eq.{nat_eq}
use iron_dag.Prelude.Map.{insert, remove}
use iron_dag.Prelude.HashSet.{contains, delete}
use iron_dag.Dag.Storage.{
  Block, DagStorage, get_children, set_children, add_block_storage, prune_blocks_by_hash,
  prune_red_blocks, clear_storage, increment_checkpoint_counter, reset_checkpoint_counter,
}
use iron_dag.Dag.State.{GhostDag}
use iron_dag.Dag.Full.{update_blue_set}
use iron_dag.Dag.Incremental.{update_blue_set_incremental}

unfoldable pub cache_genesis : Block → GhostDag → GhostDag
cache_genesis b g = elim g.genesis_hash [
  | some _ ↦ g
  | none ↦ if is_empty b.parent_hashes then record g { genesis_hash = some b.hash } else g
]

unfoldable pub link_parents : ℕ → List ℕ → DagStorage → DagStorage
link_parents h [] s = s
link_parents h (p ∷ ps) s = link_parents h ps (
    let children = get_children p s in
    if contains h children then s else set_children p (children ++ h ∷ []) s)

-- The block is stored and linked; then its own children are reset.
unfoldable pub store_block : Block → DagStorage → DagStorage
unfolding link_parents
store_block b s =
    set_children b.hash [] (link_parents b.hash b.parent_hashes (add_block_storage b s))

unfoldable pub forget_all : List ℕ → GhostDag → GhostDag
forget_all [] g = g
forget_all (h ∷ hs) g = forget_all hs (record g {
  blue_set = delete h g.blue_set;
  blue_score = remove h g.blue_score;
  red_set = delete h g.red_set;
  block_timestamps = remove h g.block_timestamps;
})

unfoldable pub prune_below_checkpoint : ℕ → GhostDag → GhostDag
unfolding forget_all
prune_below_checkpoint confirmations g =
    let high_water_mark = confirmations + confirmations in
    if leb (length g.ordering) high_water_mark
    then g
    else let gone = drop high_water_mark g.ordering in
      let g' = forget_all gone g in
      record g' {
        ordering = take high_water_mark g.ordering;
        storage = prune_blocks_by_hash gone g'.storage;
      }

-- The counter of blocks since the last checkpoint.
unfoldable pub count_checkpoint : ℕ → DagStorage → DagStorage
unfolding increment_checkpoint_counter reset_checkpoint_counter
count_checkpoint interval s =
    let s' = increment_checkpoint_counter s in
    if leb interval s'.blocks_since_checkpoint then reset_checkpoint_counter s' else s'

unfoldable pub checkpoint : ℕ → GhostDag → GhostDag
unfolding prune_below_checkpoint count_checkpoint
checkpoint n g =
    let g' = prune_below_checkpoint n g in record g' { storage = count_checkpoint n g'.storage }

-- What the end of `add_block` does, with the storage's confirmations.
unfoldable pub settle : GhostDag → GhostDag
unfolding checkpoint
settle g = if ltb 0 g.storage.confirmations then checkpoint g.storage.confirmations g else g

unfoldable pub insert_block : Block → GhostDag → GhostDag
unfolding cache_genesis store_block
insert_block b g =
    let g' = cache_genesis b g in
    record g' {
      storage = store_block b g'.storage;
      block_timestamps = insert b.hash b.timestamp g'.block_timestamps;
    }

module _ (binary_search_by : (ℕ → Ordering) → List ℕ → ℕ) where
  unfoldable pub update_sets : ℕ → GhostDag → GhostDag
  update_sets h g =
      if is_empty g.blue_set
      then update_blue_set g
      else update_blue_set_incremental binary_search_by h g

  unfoldable pub add_block : Block → GhostDag → GhostDag
  unfolding insert_block update_sets settle
  add_block b g = settle (update_sets b.hash (insert_block b g))

unfoldable pub prune_old_blocks : ℕ → GhostDag → GhostDag
prune_old_blocks current_height g = record g {
  storage = (prune_red_blocks current_height 100 g.storage).0;
}

unfoldable pub clear : GhostDag → GhostDag
clear g = record g {
  genesis_hash = none;
  blue_set = [];
  red_set = [];
  blue_score = [];
  block_timestamps = [];
  ordering = [];
  storage = clear_storage g.storage;
}
