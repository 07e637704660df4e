-- ===== src/Dag/State.antt =====
-- `GhostDAG` and the scores of a block's parents.
use Prim.Native.Nat.{ℕ, max}
use mathlib.Core.Bool.{Bool, true, false, ◌&&◌}
use mathlib.Core.List.{List, [], ◌∷◌}
use mathlib.Core.Option.{Option, none, some}
use iron_dag.Prelude.Tests.{leb, if◌then◌else◌}
use iron_dag.Prelude.Eq.{nat_eq}
use iron_dag.Prelude.Map.{Map, get, insert}
use iron_dag.Prelude.HashSet.{contains, add}
use iron_dag.Dag.Storage.{DagStorage, new_storage}

pub record GhostDag : Type 0 where
  pub k : ℕ
  pub storage : DagStorage
  pub genesis_hash : Option ℕ
  pub blue_set : List ℕ
  pub red_set : List ℕ
  pub blue_score : Map ℕ ℕ
  pub block_timestamps : Map ℕ ℕ
  pub ordering : List ℕ
  pub checkpoint_stale_rebuilt : Bool

-- `none` is the panic of the assertion.
unfoldable pub with_k : ℕ → Option GhostDag
unfolding new_storage
with_k k =
    if leb 1 k && leb k 64
    then some (record {
      k = k;
      storage = new_storage 1000 100;
      genesis_hash = none;
      blue_set = [];
      red_set = [];
      blue_score = [];
      block_timestamps = [];
      ordering = [];
      checkpoint_stale_rebuilt = false;
    })
    else none

-- `copied().unwrap_or(0)`
abbrev pub or_zero : Option ℕ → ℕ
or_zero none = 0
or_zero (some n) = n

unfoldable pub score_of : ℕ → GhostDag → ℕ
score_of h g = or_zero (get h g.blue_score)

unfoldable pub time_of : ℕ → GhostDag → ℕ
time_of h g = or_zero (get h g.block_timestamps)

-- The scores of the parents that have one; where `only_blue`, of the blue ones.
unfoldable pub parent_scores : Bool → List ℕ → GhostDag → List ℕ
parent_scores only_blue [] g = []
parent_scores only_blue (p ∷ ps) g =
    let rest = parent_scores only_blue ps g in
    elim (if only_blue then contains p g.blue_set else true) [
      | false ↦ rest
      | true ↦ elim (get p g.blue_score) [ none ↦ rest | some score ↦ score ∷ rest ]
    ]

-- `max().unwrap_or(0)`
unfoldable pub maximum : List ℕ → ℕ
maximum [] = 0
maximum (x ∷ xs) = max x (maximum xs)

unfoldable pub mark_blue : ℕ → ℕ → GhostDag → GhostDag
mark_blue h score g = record g {
  blue_score = insert h score g.blue_score;
  blue_set = add h g.blue_set;
}

unfoldable pub mark_red : ℕ → GhostDag → GhostDag
mark_red h g = record g { red_set = add h g.red_set }
