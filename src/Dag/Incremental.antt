-- ===== src/Dag/Incremental.antt =====
-- `update_blue_set_incremental`: the new block and its descendants are classified again, and the
-- ordering is patched by binary search. Sets are iterated in the order of their lists.
pub mod Order
pub mod Tip
use Prim.Native.Nat.{ℕ, ◌+◌, compare, Ordering}
use mathlib.Core.Bool.{Bool, true, false, not, ◌&&◌}
use mathlib.Core.List.{List, [], ◌∷◌, ◌++◌}
use mathlib.Core.Option.{Option, none, some}
use iron_dag.Prelude.Tests.{◌==◌, if◌then◌else◌}
use iron_dag.Prelude.Lists.{any, all, is_empty, take, drop}
use iron_dag.Prelude.Eq.{nat_eq}
use iron_dag.Prelude.Map.{Map, insert, remove, contains_key}
use iron_dag.Prelude.HashSet.{contains, add, delete}
use iron_dag.Dag.Storage.{Block, get_block}
use iron_dag.Dag.State.{GhostDag, score_of, time_of, parent_scores, maximum, mark_blue, mark_red}
use iron_dag.Dag.Affected.{affected_by, topo_order}
use iron_dag.Dag.Full.{update_blue_set}

unfoldable pub values : Map ℕ ℕ → List ℕ
values [] = []
values ((h, n) ∷ m) = n ∷ values m

-- Parents that are in the hot cache but not blue, in a session that has rebuilt before, become blue.
unfoldable pub adopt_parents : ℕ → List ℕ → GhostDag → GhostDag
adopt_parents score [] g = g
adopt_parents score (p ∷ ps) g = adopt_parents score ps (
    if contains_key p g.storage.hot_blocks && not (contains p g.blue_set)
    then record g {
      blue_set = add p g.blue_set;
      blue_score =
          if contains_key p g.blue_score then g.blue_score else insert p score g.blue_score;
    }
    else g)

-- Does a block point to a stale checkpoint?
unfoldable pub is_stale : List ℕ → GhostDag → Bool
is_stale parents g =
    any (λ p. contains_key p g.storage.hot_blocks) parents
    && not (any (λ p. contains p g.blue_set) parents)

unfoldable pub clear_sets : GhostDag → GhostDag
clear_sets g = record g {
  blue_set = [];
  red_set = [];
  blue_score = [];
  ordering = [];
  checkpoint_stale_rebuilt = true;
}

-- What changed for the ordering.
pub record Delta : Type 0 where
  pub added : List ℕ
  pub removed : List ℕ
  pub dag : GhostDag

unfoldable pub forget : List ℕ → Delta → Delta
forget [] d = d
forget (h ∷ hs) d = forget hs (record d {
  removed = if contains h d.dag.blue_set then add h d.removed else d.removed;
  dag = record d.dag {
    blue_set = delete h d.dag.blue_set;
    blue_score = remove h d.dag.blue_score;
    red_set = delete h d.dag.red_set;
  };
})

-- Step 4: a block is blue after its blue parents, or red.
unfoldable pub reclassify_one : ℕ → Block → Delta → Delta
reclassify_one h b d =
    let scores = parent_scores true b.parent_hashes d.dag in
    if is_empty scores
    then record d {
      dag = if is_empty b.parent_hashes then mark_blue h 1 d.dag else mark_red h d.dag;
    }
    else record d {
      dag = mark_blue h (maximum scores + 1) d.dag;
      removed = delete h d.removed;
      added = if contains h d.removed then d.added else add h d.added;
    }

unfoldable pub reclassify : List ℕ → Delta → Delta
unfolding reclassify_one
reclassify [] d = d
reclassify (h ∷ hs) d =
    reclassify hs (elim (get_block h d.dag.storage) [ none ↦ d | some b ↦ reclassify_one h b d ])

-- The fallback for a block all of whose parents are blue.
unfoldable pub all_blue : List ℕ → GhostDag → Bool
all_blue parents g = all (λ p. contains p g.blue_set) parents

unfoldable pub next_score : List ℕ → GhostDag → ℕ
next_score parents g =
    let scores = parent_scores false parents g in if is_empty scores then 1 else maximum scores + 1

unfoldable pub promote : ℕ → List ℕ → Delta → Delta
unfolding next_score
promote h parents d =
    let g = mark_blue h (next_score parents d.dag) d.dag in
    record d { added = add h d.added; dag = record g { red_set = delete h g.red_set } }

-- The parents of the new block, where it is to be promoted.
unfoldable pub missed : ℕ → GhostDag → Option (List ℕ)
unfolding all_blue
missed new g = if contains new g.blue_set then none else elim (get_block new g.storage) [
  | none ↦ none
  | some b ↦ if all_blue b.parent_hashes g then some b.parent_hashes else none
]

unfoldable pub missed_red : List ℕ → GhostDag → List (ℕ × List ℕ)
unfolding all_blue
missed_red [] g = []
missed_red (h ∷ hs) g =
    let rest = missed_red hs g in
    if contains h g.red_set && not (contains h g.blue_set)
    then elim (get_block h g.storage) [
      | none ↦ rest
      | some b ↦ if all_blue b.parent_hashes g then (h, b.parent_hashes) ∷ rest else rest
    ]
    else rest

unfoldable pub promote_all : List (ℕ × List ℕ) → Delta → Delta
unfolding promote
promote_all [] d = d
promote_all ((h, parents) ∷ hs) d =
    let d' = promote h parents d in promote_all hs (record d' { removed = delete h d'.removed })

-- Both lists are read before either is processed.
unfoldable pub fall_back : ℕ → List ℕ → Delta → Delta
unfolding missed missed_red promote promote_all
fall_back new affected d =
    let red = missed_red affected d.dag in
    promote_all red (elim (missed new d.dag) [ none ↦ d | some parents ↦ promote new parents d ])

-- `ordering.remove(pos)` at the first position of a hash.
unfoldable pub remove_first : ℕ → List ℕ → List ℕ
remove_first h [] = []
remove_first h (x ∷ xs) = if x == h then xs else x ∷ remove_first h xs

unfoldable pub drop_removed : List ℕ → List ℕ → List ℕ
unfolding remove_first
drop_removed [] ordering = ordering
drop_removed (h ∷ hs) ordering = drop_removed hs (remove_first h ordering)

-- The comparator of the binary search, on a probe: by the scores, then by the timestamps.
unfoldable pub probe_order : ℕ → GhostDag → ℕ → Ordering
probe_order h g probe = elim (compare (score_of h g) (score_of probe g)) [
  | Ordering.eq ↦ compare (time_of h g) (time_of probe g)
  | Ordering.lt ↦ Ordering.lt
  | Ordering.gt ↦ Ordering.gt
]

abbrev pub insert_at : ℕ → ℕ → List ℕ → List ℕ
insert_at i h xs = take i xs ++ h ∷ drop i xs

-- `binary_search_by` of the standard library: the index in its answer, `Ok` or `Err`.
module _ (binary_search_by : (ℕ → Ordering) → List ℕ → ℕ) where
  unfoldable pub insert_ordered : ℕ → GhostDag → List ℕ → List ℕ
  unfolding probe_order
  insert_ordered h g ordering = insert_at (binary_search_by (probe_order h g) ordering) h ordering

  unfoldable pub insert_added : List ℕ → GhostDag → List ℕ → List ℕ
  unfolding insert_ordered
  insert_added [] g ordering = ordering
  insert_added (h ∷ hs) g ordering = insert_added hs g (insert_ordered h g ordering)

  unfoldable pub patch_ordering : Delta → GhostDag
  unfolding insert_added drop_removed
  patch_ordering d = record d.dag {
    ordering = insert_added d.added d.dag (drop_removed d.removed d.dag.ordering);
  }

  -- Steps 1 to 4, the fallback and the ordering.
  unfoldable pub recompute : ℕ → GhostDag → GhostDag
  unfolding affected_by topo_order forget reclassify fall_back patch_ordering
  recompute new g =
      let affected = affected_by new g.storage in
      let order = topo_order affected g.storage in
      let d : Delta = forget affected (record { added = []; removed = []; dag = g }) in
      patch_ordering (fall_back new affected (reclassify order d))

  -- The detection of a stale checkpoint, for a block that has parents.
  unfoldable pub recompute_after_stale : ℕ → List ℕ → GhostDag → GhostDag
  unfolding recompute is_stale clear_sets adopt_parents values
  recompute_after_stale new parents g =
      if not (is_empty parents) && is_stale parents g
      then if g.checkpoint_stale_rebuilt
        then recompute new (adopt_parents (maximum (values g.blue_score) + 1) parents g)
        else update_blue_set (clear_sets g)
      else recompute new g

  unfoldable pub update_blue_set_incremental : ℕ → GhostDag → GhostDag
  unfolding recompute_after_stale
  update_blue_set_incremental new g = elim g.genesis_hash [
    | none ↦ g
    | some genesis ↦ elim (get_block genesis g.storage) [
      | none ↦ g
      | some _ ↦ elim (get_block new g.storage) [
        | none ↦ recompute new g
        | some b ↦ recompute_after_stale new b.parent_hashes g
      ]
    ]
  ]
