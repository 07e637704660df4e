-- ===== src/Dag/Full.antt =====
-- `update_blue_set`: the breadth-first classification from the genesis block, and the sort.
pub mod Sorted
pub mod Fuel
pub mod Reach
use Prim.Native.Nat.{ℕ, zero, suc, ◌+◌}
use mathlib.Core.Bool.{Bool, true, ◌&&◌, ◌||◌}
use mathlib.Core.List.{List, [], ◌∷◌, ◌++◌}
use mathlib.Core.Option.{none, some}
use iron_dag.Prelude.Tests.{ltb, leb, ◌==◌, if◌then◌else◌}
use iron_dag.Prelude.Lists.{length, is_empty}
use iron_dag.Prelude.Eq.{nat_eq}
use iron_dag.Prelude.Map.{Map}
use iron_dag.Prelude.HashSet.{contains, add}
use iron_dag.Dag.Storage.{get_block, get_children}
use iron_dag.Dag.State.{GhostDag, score_of, parent_scores, maximum, mark_blue, mark_red}

-- A block that is found is blue with the next score, or red where none of its parents is blue.
unfoldable pub classify : ℕ → GhostDag → GhostDag
classify h g = elim (get_block h g.storage) [
  | none ↦ g
  | some b ↦
      let scores = parent_scores true b.parent_hashes g in
      if is_empty scores then mark_red h g else mark_blue h (maximum scores + 1) g
]

-- The queue, what has been visited, and the sets so far.
pub record Walk : Type 0 where
  pub queue : List ℕ
  pub visited : List ℕ
  pub dag : GhostDag

unfoldable pub visit : List ℕ → Walk → Walk
unfolding classify
visit [] w = w
visit (c ∷ cs) w = visit cs (
    if contains c w.visited
    then w
    else record { queue = w.queue ++ c ∷ []; visited = add c w.visited; dag = classify c w.dag })

-- `while let Some(current) = queue.pop_front()`, on fuel.
unfoldable pub bfs : ℕ → Walk → Walk
unfolding visit
bfs zero w = w
bfs (suc fuel) w = elim w.queue [
  | [] ↦ w
  | current ∷ rest ↦
      bfs fuel (visit (get_children current w.dag.storage) (record w { queue = rest }))
]

-- The children of all blocks, as often as they are listed.
unfoldable pub all_children : Map ℕ (List ℕ) → List ℕ
all_children [] = []
all_children ((h, children) ∷ m) = children ++ all_children m

-- A hash with its score and timestamp.
abbrev pub Entry : Type 0
Entry = ℕ × ℕ × ℕ

-- The entries in the order in which the blue set is iterated.
unfoldable pub entries : List ℕ → GhostDag → List Entry
entries [] g = []
entries (h ∷ hs) g =
    let rest = entries hs g in
    elim (get_block h g.storage) [ none ↦ rest | some b ↦ (h, score_of h g, b.timestamp) ∷ rest ]

-- The comparator: a higher score first, then an earlier timestamp; `true` where `a` may stand
-- before `b`.
abbrev pub comes_before : Entry → Entry → Bool
comes_before (_, sa, ta) (_, sb, tb) = ltb sb sa || ((sa == sb) && leb ta tb)

-- A stable sort.
unfoldable pub insert_entry : Entry → List Entry → List Entry
insert_entry e [] = e ∷ []
insert_entry e (x ∷ xs) = if comes_before e x then e ∷ x ∷ xs else x ∷ insert_entry e xs

unfoldable pub sort_entries : List Entry → List Entry
unfolding insert_entry
sort_entries [] = []
sort_entries (e ∷ es) = insert_entry e (sort_entries es)

unfoldable pub hashes : List Entry → List ℕ
hashes [] = []
hashes ((h, _, _) ∷ es) = h ∷ hashes es

-- The sets with the genesis block alone.
unfoldable pub start : ℕ → GhostDag → GhostDag
start genesis g = record g { blue_score = (genesis, 1) ∷ []; blue_set = genesis ∷ []; red_set = [] }

unfoldable pub fuel_for : GhostDag → ℕ
unfolding all_children
fuel_for g = suc (length (all_children g.storage.hot_children))

-- The walk from the genesis block, and the ordering of what it leaves.
unfoldable pub walk_from : ℕ → GhostDag → GhostDag
unfolding start bfs fuel_for
walk_from genesis g =
    let w : Walk = record { queue = genesis ∷ []; visited = genesis ∷ []; dag = start genesis g } in
    (bfs (fuel_for g) w).dag

unfoldable pub order_blue : GhostDag → GhostDag
unfolding entries sort_entries hashes
order_blue g = record g { ordering = hashes (sort_entries (entries g.blue_set g)) }

unfoldable pub update_blue_set : GhostDag → GhostDag
unfolding walk_from order_blue
update_blue_set g = elim g.genesis_hash [
  | none ↦ g
  | some genesis ↦ elim (get_block genesis g.storage) [
    | none ↦ g
    | some b ↦ if is_empty b.parent_hashes then order_blue (walk_from genesis g) else g
  ]
]
