-- ===== src/Dag/Tests.antt =====
-- Concrete runs of the consensus.
use Prim.Native.Nat.{◌+◌, ℕ, suc, ◌≤◌, ◌<◌, Ordering}
use Prim.Native.Nat.Ordering.{lt, eq, gt}
use mathlib.Core.Path.{◌≡◌, refl}
use mathlib.Core.Logic.{◌≢◌}
use mathlib.Core.Bool.{true, false}
use mathlib.Core.List.{List, [], ◌∷◌}
use mathlib.Core.Option.{none}
use native.Mathlib.Omega.{arith}
use iron_dag.Prelude.Eq.{nat_eq}
use iron_dag.Prelude.Map.{get, insert, remove}
use iron_dag.Prelude.HashSet.{contains, add, delete}
use iron_dag.Prelude.Lists.{length, take, drop}
use iron_dag.Dag.Storage.{
  DagStorage, Block, get_children, get_block, set_children, add_block_storage,
}
use iron_dag.Dag.State.{GhostDag, score_of, time_of, parent_scores, mark_blue, maximum}
use iron_dag.Dag.Full.{walk_from, Entry, Walk, bfs, fuel_for, start, update_blue_set}
use iron_dag.Dag.Incremental.{insert_added, update_blue_set_incremental}
use iron_dag.Dag.Incremental.Order.{
  All, IsSortedBy, rank, IsBinarySearch, Precedes, insert_added-IsSortedBy,
}
use iron_dag.Dag.AddBlock.{store_block, insert_block, add_block, settle, update_sets}
use iron_dag.Dag.AddBlock.Children.{store_block-get_children}
use iron_dag.Dag.Queries.{finality_depth, get_finalized_block_hash, get_tips}
use iron_dag.Dag.AddBlock.Pruning.{settle_keeps_finality}
use iron_dag.Dag.AddBlock.Colour.{update_sets-IsBlueTip}
use iron_dag.Dag.Incremental.Tip.{IsBlueTip}
use iron_dag.Dag.Full.Fuel.{bfs-fuel_for}
use iron_dag.Dag.Full.Reach.{self, child, IsColoured, walk_from_colours}

-- A linear search in the place of the binary one: the number of the leading smaller elements.
abbrev search : (ℕ → Ordering) → List ℕ → ℕ
search f [] = 0
search f (x ∷ xs) = elim (f x) [ lt ↦ suc (search f xs) | eq ↦ 0 | gt ↦ 0 ]

search_rest :
    (f : ℕ → Ordering) (x : ℕ) (xs : List ℕ)
    → f x ≢ lt
    → All (λ y. rank (f x) ≤ rank (f y)) xs
    → All (λ y. f y ≢ lt) xs
search_rest f x [] n a = tt
search_rest f x (y ∷ ys) n a = (ground arith, search_rest f x ys n a.1)

search_step :
    (f : ℕ → Ordering) (x i : ℕ) (xs : List ℕ) (o : Ordering)
    → f x ≡ o
    → All (λ y. rank (f x) ≤ rank (f y)) xs
    → All (λ y. f y ≢ gt) (take i xs) × All (λ y. f y ≢ lt) (drop i xs)
    → let at : ℕ = elim o [ lt ↦ suc i | eq ↦ 0 | gt ↦ 0 ] in
      All (λ y. f y ≢ gt) (take at (x ∷ xs)) × All (λ y. f y ≢ lt) (drop at (x ∷ xs))
search_step f x i xs lt e above ih = ((ground arith, ih.0), ih.1)
search_step f x i xs eq e above ih = (tt, (ground arith, search_rest f x xs (ground arith) above))
search_step f x i xs gt e above ih = (tt, (ground arith, search_rest f x xs (ground arith) above))

search-IsBinarySearch : IsBinarySearch search
search-IsBinarySearch f [] s = (tt, tt)
search-IsBinarySearch f (x ∷ xs) s =
    search_step f x (search f xs) xs (f x) refl s.0 (search-IsBinarySearch f xs s.1)

abbrev empty_dag : GhostDag
empty_dag = record {
  k = 4;
  storage = record {
    hot_blocks = [];
    hot_blocks_order = [];
    hot_children = [];
    hot_blue_set = [];
    hot_blue_scores = [];
    hot_cache_size = 1000;
    confirmations = 100;
    finalized_blocks = [];
    blocks_since_checkpoint = 0;
  };
  genesis_hash = none;
  blue_set = [];
  red_set = [];
  blue_score = [];
  block_timestamps = [];
  ordering = [];
  checkpoint_stale_rebuilt = false;
}

abbrev block : ℕ → List ℕ → ℕ → ℕ → Block
block hash parents number time = record {
  hash = hash;
  parent_hashes = parents;
  block_number = number;
  timestamp = time;
}

abbrev three : GhostDag
three =
    add_block search (block 3 (1 ∷ []) 1 30)
      (add_block search (block 2 (1 ∷ []) 1 20) (add_block search (block 1 [] 0 10) empty_dag))

fork : (three.ordering ≡ 3 ∷ 2 ∷ 1 ∷ []) × (get_tips three ≡ 3 ∷ 2 ∷ [])
unfolding add_block get_tips update_blue_set get_block get set_children add_block_storage insert
    get_children update_blue_set_incremental contains parent_scores delete remove mark_blue add
    score_of maximum time_of
fork = (refl, refl)

-- Blocks 2 and 3 came with equal scores.
insert_added-IsSortedBy_example :
    IsSortedBy (Precedes three) (insert_added search (2 ∷ 3 ∷ []) three (1 ∷ []))
insert_added-IsSortedBy_example =
    insert_added-IsSortedBy search search-IsBinarySearch (2 ∷ 3 ∷ []) three (1 ∷ []) (tt, tt)

same_score : score_of 3 three ≡ score_of 2 three
unfolding add_block update_blue_set get_block get set_children add_block_storage insert get_children
    update_blue_set_incremental contains parent_scores delete remove mark_blue add score_of maximum
    time_of
same_score = refl

later : time_of 2 three < time_of 3 three
unfolding add_block update_blue_set get_block get set_children add_block_storage insert get_children
    update_blue_set_incremental contains parent_scores delete remove mark_blue add score_of maximum
    time_of
later = omega arith

-- Block 4 names 2 and 3.
abbrev merge : Block
merge = block 4 (2 ∷ 3 ∷ []) 2 40

store_block-get_children_example :
    (contains 4 (get_children 3 (store_block merge three.storage)) ≡ true)
    × (get_children 4 (store_block merge three.storage) ≡ [])
unfolding contains
store_block-get_children_example = store_block-get_children merge 3 three.storage refl (omega arith)

abbrev five : List Entry
five = (7, 2, 30) ∷ (8, 3, 10) ∷ (9, 2, 20) ∷ []

bfs-fuel_for_example :
    Walk.queue
      (bfs (fuel_for three) (record { queue = 1 ∷ []; visited = 1 ∷ []; dag = start 1 three }))
    ≡ []
bfs-fuel_for_example = bfs-fuel_for 1 three

-- The same blocks under the smallest `k`.
abbrev narrow : GhostDag
narrow = record three { k = 1 }

-- Where one confirmation is enough, the third block is one too many.
abbrev crowded : GhostDag
crowded = record three {
  ordering = 3 ∷ 2 ∷ 1 ∷ [];
  storage = record empty_dag.storage { confirmations = 1 };
}

settle_keeps_finality_example :
    (length (settle crowded).ordering ≤ finality_depth crowded + finality_depth crowded)
    × (get_finalized_block_hash (settle crowded) ≡ get_finalized_block_hash crowded)
settle_keeps_finality_example = settle_keeps_finality crowded (omega arith)

-- Block 1 lies below the threshold, block 2 does not.
abbrev two_blocks : DagStorage
two_blocks = record empty_dag.storage {
  hot_blocks = (1, block 1 [] 0 10) ∷ (2, block 2 (1 ∷ []) 60 20) ∷ [];
}

update_sets-IsBlueTip_example :
    IsBlueTip 4 merge (insert_block merge three) (update_sets search 4 (insert_block merge three))
unfolding add_block update_blue_set get_block get set_children add_block_storage insert get_children
    update_blue_set_incremental contains parent_scores delete remove mark_blue add score_of maximum
    time_of insert_block
update_sets-IsBlueTip_example =
    update_sets-IsBlueTip search merge (block 1 [] 0 10) 1 three refl refl refl refl refl

-- A parent with one child.
abbrev pair_dag : GhostDag
pair_dag = record empty_dag {
  storage = record two_blocks { hot_children = (1, 2 ∷ []) ∷ (2, []) ∷ [] };
}

walk_from_colours_example : IsColoured (walk_from 1 pair_dag) 2
unfolding get_children get contains
walk_from_colours_example = walk_from_colours 1 2 pair_dag (child 1 2 self refl)
