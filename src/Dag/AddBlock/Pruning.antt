-- ===== src/Dag/AddBlock/Pruning.antt =====
-- What the pruning at the end of `add_block` keeps.
use Prim.Native.Nat.{ℕ, zero, suc, ◌+◌, ◌≤◌, ◌<◌, min}
use mathlib.Core.Path.{◌≡◌, refl}
use mathlib.Core.List.{List, [], ◌∷◌}
use native.Mathlib.Omega.{arith}
use iron_dag.Prelude.Lists.{length, take, drop, get_elem?}
use iron_dag.Dag.Storage.{
  DagStorage, evict_all, prune_blocks_by_hash, increment_checkpoint_counter,
  reset_checkpoint_counter,
}
use iron_dag.Dag.State.{GhostDag}
use iron_dag.Dag.AddBlock.{forget_all, prune_below_checkpoint, count_checkpoint, checkpoint, settle}
use iron_dag.Dag.Queries.{finality_depth, get_finalized_block_hash}

length-take : (n : ℕ) (xs : List ℕ) → length (take n xs) ≡ min n (length xs)
length-take zero xs = omega arith
length-take (suc n) [] = omega arith
length-take (suc n) (x ∷ xs) = omega (arith, length-take n xs)

get_elem?-take : (n i : ℕ) (xs : List ℕ) → i < n → get_elem? (take n xs) i ≡ get_elem? xs i
get_elem?-take zero i xs h = absurd (omega arith)
get_elem?-take (suc n) i [] h = refl
get_elem?-take (suc n) zero (x ∷ xs) h = refl
get_elem?-take (suc n) (suc i) (x ∷ xs) h = get_elem?-take n i xs (omega arith)

evict_all_keeps : (hs : List ℕ) (s : DagStorage) → (evict_all hs s).confirmations ≡ s.confirmations
unfolding evict_all
evict_all_keeps [] s = refl
evict_all_keeps (h ∷ hs) s = evict_all_keeps hs _

forget_all_keeps :
    (hs : List ℕ) (g : GhostDag)
    → ((forget_all hs g).storage ≡ g.storage) × ((forget_all hs g).ordering ≡ g.ordering)
unfolding forget_all
forget_all_keeps [] g = (refl, refl)
forget_all_keeps (h ∷ hs) g = forget_all_keeps hs _

prune_keeps :
    (n : ℕ) (g : GhostDag)
    → (prune_below_checkpoint n g).storage.confirmations ≡ g.storage.confirmations
unfolding prune_below_checkpoint prune_blocks_by_hash
prune_keeps n g = ground (
  arith,
  evict_all_keeps (drop (n + n) g.ordering) (forget_all (drop (n + n) g.ordering) g).storage,
  forget_all_keeps (drop (n + n) g.ordering) g,
)

take_all : (n : ℕ) (xs : List ℕ) → length xs ≤ n → take n xs ≡ xs
take_all zero [] h = refl
take_all zero (x ∷ xs) h = absurd (omega arith)
take_all (suc n) [] h = refl
take_all (suc n) (x ∷ xs) h = cc (take_all n xs (omega arith))

prune-ordering :
    (n : ℕ) (g : GhostDag) → (prune_below_checkpoint n g).ordering ≡ take (n + n) g.ordering
unfolding prune_below_checkpoint
prune-ordering n g = ground (arith, take_all (n + n) g.ordering)

count_keeps : (n : ℕ) (s : DagStorage) → (count_checkpoint n s).confirmations ≡ s.confirmations
unfolding count_checkpoint increment_checkpoint_counter reset_checkpoint_counter
count_keeps n s = ground arith

settle_keeps :
    (g : GhostDag)
    → 0 < g.storage.confirmations
    → ((settle g).storage.confirmations ≡ g.storage.confirmations)
      × ((settle g).ordering ≡ take (g.storage.confirmations + g.storage.confirmations) g.ordering)
unfolding settle checkpoint
settle_keeps g p = ground (
  arith,
  prune_keeps g.storage.confirmations g,
  prune-ordering g.storage.confirmations g,
  count_keeps g.storage.confirmations (prune_below_checkpoint g.storage.confirmations g).storage,
)

-- Where the storage asks for checkpoints, the ordering that the end of `add_block` leaves has at
-- most twice as many blocks as the finality depth, and the finalized block is the one of before.
pub settle_keeps_finality :
    (g : GhostDag)
    → 0 < g.storage.confirmations
    → (length (settle g).ordering ≤ finality_depth g + finality_depth g)
      × (get_finalized_block_hash (settle g) ≡ get_finalized_block_hash g)
unfolding get_finalized_block_hash finality_depth
settle_keeps_finality g p =
    let n = g.storage.confirmations in
    let (c, o) = settle_keeps g p in
    ground (arith, length-take (n + n) g.ordering, get_elem?-take (n + n) n g.ordering)
