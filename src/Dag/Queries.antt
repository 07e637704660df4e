-- ===== src/Dag/Queries.antt =====
-- `get_ordered_blocks`, `get_finalized_block_hash`, `get_finalized_block_number` and `get_tips`.
pub mod Tips
use Prim.Native.Nat.{ℕ}
use mathlib.Core.Bool.{◌&&◌}
use mathlib.Core.List.{List, [], ◌∷◌, ◌++◌}
use mathlib.Core.Option.{Option, none, some}
use iron_dag.Prelude.Tests.{ltb, leb, if◌then◌else◌}
use iron_dag.Prelude.Lists.{length, is_empty, take, get_elem?}
use iron_dag.Dag.Storage.{Block, get_block, get_children}
use iron_dag.Dag.State.{GhostDag, score_of}

unfoldable pub ordered_blocks : List ℕ → GhostDag → List Block
ordered_blocks [] g = []
ordered_blocks (h ∷ hs) g =
    let rest = ordered_blocks hs g in
    elim (get_block h g.storage) [ none ↦ rest | some b ↦ b ∷ rest ]

unfoldable pub get_ordered_blocks : GhostDag → List Block
unfolding ordered_blocks
get_ordered_blocks g = ordered_blocks g.ordering g

unfoldable pub finality_depth : GhostDag → ℕ
finality_depth g = if ltb 0 g.storage.confirmations then g.storage.confirmations else 1

unfoldable pub get_finalized_block_hash : GhostDag → Option ℕ
unfolding finality_depth
get_finalized_block_hash g =
    if leb (length g.ordering) (finality_depth g)
    then none
    else get_elem? g.ordering (finality_depth g)

unfoldable pub get_finalized_block_number : GhostDag → Option ℕ
unfolding get_finalized_block_hash
get_finalized_block_number g = elim (get_finalized_block_hash g) [
  | none ↦ none
  | some h ↦ elim (get_block h g.storage) [ none ↦ none | some b ↦ some b.block_number ]
]

-- The blocks of a list that have no children, with their scores.
unfoldable pub leaves_of : (ℕ → ℕ) → List ℕ → GhostDag → List (ℕ × ℕ)
leaves_of score [] g = []
leaves_of score (h ∷ hs) g =
    let rest = leaves_of score hs g in
    if is_empty (get_children h g.storage) then (h, score h) ∷ rest else rest

-- A stable sort by falling score.
unfoldable pub insert_tip : ℕ × ℕ → List (ℕ × ℕ) → List (ℕ × ℕ)
insert_tip t [] = t ∷ []
insert_tip t (x ∷ xs) = if leb x.1 t.1 then t ∷ x ∷ xs else x ∷ insert_tip t xs

unfoldable pub sort_tips : List (ℕ × ℕ) → List (ℕ × ℕ)
unfolding insert_tip
sort_tips [] = []
sort_tips (t ∷ ts) = insert_tip t (sort_tips ts)

unfoldable pub firsts : List (ℕ × ℕ) → List ℕ
firsts [] = []
firsts ((h, _) ∷ ts) = h ∷ firsts ts

unfoldable pub get_tips : GhostDag → List ℕ
unfolding leaves_of sort_tips firsts
get_tips g = if is_empty g.blue_set && is_empty g.red_set then [] else elim g.genesis_hash [
  | none ↦ []
  | some genesis ↦
      let tips = leaves_of (λ h. score_of h g) g.blue_set g ++ leaves_of (λ _. 0) g.red_set g in
      if is_empty tips then genesis ∷ [] else firsts (take g.k (sort_tips tips))
]
