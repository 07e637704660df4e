-- ===== src/Dag/Affected.antt =====
-- The blocks that `update_blue_set_incremental` classifies again, and their topological order.
use Prim.Native.Nat.{ℕ, zero, suc, ◌+◌, ◌-◌}
use mathlib.Core.List.{List, [], ◌∷◌, ◌++◌}
use mathlib.Core.Option.{none, some}
use iron_dag.Prelude.Tests.{◌==◌, if◌then◌else◌}
use iron_dag.Prelude.Lists.{length, is_empty}
use iron_dag.Prelude.Eq.{nat_eq}
use iron_dag.Prelude.Map.{Map, get, insert}
use iron_dag.Prelude.HashSet.{contains}
use iron_dag.Dag.Storage.{DagStorage, get_block, get_children}
use iron_dag.Dag.Full.{all_children}

-- The descendants of the queued blocks, on fuel.
unfoldable pub add_affected : List ℕ → List ℕ × List ℕ → List ℕ × List ℕ
add_affected [] acc = acc
add_affected (c ∷ cs) (queue, affected) =
    add_affected cs
      (if contains c affected then (queue, affected) else (queue ++ c ∷ [], affected ++ c ∷ []))

unfoldable pub descend : ℕ → DagStorage → List ℕ × List ℕ → List ℕ
unfolding add_affected
descend fuel s ([], affected) = affected
descend zero s (h ∷ queue, affected) = affected
descend (suc fuel) s (h ∷ queue, affected) =
    descend fuel s (add_affected (get_children h s) (queue, affected))

unfoldable pub affected_by : ℕ → DagStorage → List ℕ
unfolding descend
affected_by new s =
    if is_empty (get_children new s)
    then new ∷ []
    else descend (suc (length (all_children s.hot_children))) s (new ∷ [], new ∷ [])

unfoldable pub count_in : List ℕ → List ℕ → ℕ
count_in [] affected = 0
count_in (p ∷ ps) affected =
    let rest = count_in ps affected in if contains p affected then suc rest else rest

unfoldable pub in_degrees : List ℕ → List ℕ → DagStorage → Map ℕ ℕ
unfolding count_in
in_degrees [] affected s = []
in_degrees (h ∷ hs) affected s =
    let rest = in_degrees hs affected s in
    elim (get_block h s) [
      | none ↦ rest
      | some b ↦ insert h (count_in b.parent_hashes affected) rest
    ]

-- `in_degree.get(&h).unwrap_or(1) == 0`
unfoldable pub roots : List ℕ → Map ℕ ℕ → List ℕ
roots [] degrees = []
roots (h ∷ hs) degrees =
    let rest = roots hs degrees in
    elim (get h degrees) [ none ↦ rest | some d ↦ if d == 0 then h ∷ rest else rest ]

unfoldable pub release : List ℕ → List ℕ → List ℕ × Map ℕ ℕ → List ℕ × Map ℕ ℕ
release [] affected acc = acc
release (c ∷ cs) affected (queue, degrees) = release cs affected (
    if contains c affected
    then elim (get c degrees) [
      | none ↦ (queue, degrees)
      | some d ↦ (if d - 1 == 0 then queue ++ c ∷ [] else queue, insert c (d - 1) degrees)
    ]
    else (queue, degrees))

-- The topological order, on fuel.
unfoldable pub topological : ℕ → List ℕ → DagStorage → List ℕ × Map ℕ ℕ → List ℕ
unfolding release
topological fuel affected s ([], degrees) = []
topological zero affected s (h ∷ queue, degrees) = []
topological (suc fuel) affected s (h ∷ queue, degrees) =
    h ∷ topological fuel affected s (release (get_children h s) affected (queue, degrees))

unfoldable pub topo_order : List ℕ → DagStorage → List ℕ
unfolding topological in_degrees roots
topo_order affected s =
    let degrees = in_degrees affected affected s in
    topological (length affected + length (all_children s.hot_children)) affected s
      (roots affected degrees, degrees)
