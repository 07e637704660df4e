-- ===== src/Dag/Storage/Pruned.antt =====
-- What `prune_red_blocks` leaves in the hot cache.
use Prim.Native.Nat.{ℕ, ◌-◌, ◌<◌}
use mathlib.Core.Path.{◌≡◌, refl}
use mathlib.Core.Bool.{Bool, true, false, not}
use mathlib.Core.List.{List, [], ◌∷◌}
use mathlib.Core.Option.{Option, none, some}
use native.Mathlib.Omega.{arith}
use iron_dag.Prelude.Tests.{leb, if◌then◌else◌}
use iron_dag.Prelude.Eq.{nat_eq}
use iron_dag.Prelude.Map.{Map, get, remove, get-remove}
use iron_dag.Prelude.HashSet.{contains, add}
use iron_dag.Dag.Storage.{Block, DagStorage, get_block, old_red, evict_red, prune_red_blocks}

-- A block that pruning must leave alone.
abbrev pub is_kept : List ℕ → ℕ → ℕ → Block → Bool
is_kept blue threshold h b = if contains h blue then true else leb threshold b.block_number

-- A block under each hash once.
abbrev pub IsMap : Map ℕ Block → Type 0
IsMap [] = Unit
IsMap ((h, b) ∷ m) = (get h m ≡ none) × IsMap m

get-evict_red :
    (h : ℕ) (hs : List ℕ) (s : DagStorage)
    → get h (evict_red hs s).hot_blocks ≡ (if contains h hs then none else get h s.hot_blocks)
unfolding evict_red contains
get-evict_red h [] s = refl
get-evict_red h (x ∷ hs) s = ground (
  arith,
  get-remove x h s.hot_blocks,
  get-evict_red h hs (record s {
    hot_blocks = remove x s.hot_blocks;
    hot_children = remove x s.hot_children;
    hot_blue_scores = remove x s.hot_blue_scores;
    finalized_blocks = add x s.finalized_blocks;
  }),
)

absent :
    (h : ℕ) (blue : List ℕ) (t : ℕ) (m : Map ℕ Block)
    → get h m ≡ none
    → contains h (old_red blue t m) ≡ false
unfolding old_red contains get
absent h blue t [] e = refl
absent h blue t ((j, b) ∷ m) e = ground (arith, absent h blue t m)

old_red_iff :
    (h : ℕ) (blue : List ℕ) (t : ℕ) (m : Map ℕ Block)
    → IsMap m
    → contains h (old_red blue t m)
      ≡ (elim (get h m) [ none ↦ false | some b ↦ not (is_kept blue t h b) ])
unfolding old_red get contains
old_red_iff h blue t [] v = refl
old_red_iff h blue t ((j, b) ∷ m) v = ground (arith, old_red_iff h blue t m v.1, absent h blue t m)

-- What a pruning with that height and depth leaves of a block that was found, or not found.
abbrev pub left : ℕ → List ℕ → ℕ → Option Block → Option Block
left h blue threshold none = none
left h blue threshold (some b) = if is_kept blue threshold h b then some b else none

-- Above the finality depth the pruning takes out exactly the blocks that lie below the height less
-- the depth and are not in the hot blue set, and keeps all others.
get_block-prune_red_blocks :
    (height depth h : ℕ) (s : DagStorage)
    → depth < height
    → IsMap s.hot_blocks
    → get_block h (prune_red_blocks height depth s).0
      ≡ left h s.hot_blue_set (height - depth) (get_block h s)
unfolding get_block prune_red_blocks
get_block-prune_red_blocks height depth h s lt v = ground (
  arith,
  get-evict_red h (old_red s.hot_blue_set (height - depth) s.hot_blocks) s,
  old_red_iff h s.hot_blue_set (height - depth) s.hot_blocks v,
)
