-- ===== src/Dag/Incremental/Tip.antt =====
-- The incremental update for a block without children, as `add_block` always meets it.
use Prim.Native.Nat.{ℕ, zero, suc, ◌+◌, ◌<◌, Ordering}
use mathlib.Core.Path.{◌≡◌, refl}
use mathlib.Core.Logic.{◌≢◌}
use mathlib.Core.Bool.{true, false}
use mathlib.Core.List.{List, [], ◌∷◌}
use mathlib.Core.Option.{some}
use native.Mathlib.Omega.{arith}
use iron_dag.Prelude.Lists.{length, is_empty}
use iron_dag.Prelude.Eq.{nat_eq}
use iron_dag.Prelude.Map.{Map, get, insert, remove, get-insert, get-remove}
use iron_dag.Prelude.HashSet.{contains, add, delete, contains-add, contains-delete}
use iron_dag.Dag.Storage.{Block, DagStorage, get_block, get_children}
use iron_dag.Dag.State.{GhostDag, parent_scores, maximum, mark_blue}
use iron_dag.Dag.Full.{all_children}
use iron_dag.Dag.Affected.{
  affected_by, count_in, in_degrees, roots, release, topological, topo_order,
}
use iron_dag.Dag.Incremental.{
  Delta, forget, reclassify_one, reclassify, missed, missed_red, promote_all, fall_back,
  patch_ordering, recompute,
}

-- The sets without a block.
abbrev without_block : ℕ → GhostDag → GhostDag
without_block h g = record g {
  blue_set = delete h g.blue_set;
  blue_score = remove h g.blue_score;
  red_set = delete h g.red_set;
}

parent_scores-without_block :
    (h : ℕ) (ps : List ℕ) (g : GhostDag)
    → contains h ps ≡ false
    → parent_scores true ps (without_block h g) ≡ parent_scores true ps g
unfolding parent_scores contains
parent_scores-without_block h [] g e = refl
parent_scores-without_block h (p ∷ ps) g e = ground (
  arith,
  parent_scores-without_block h ps g,
  contains-delete h p g.blue_set,
  get-remove h p g.blue_score,
)

count_in_none : (h : ℕ) (ps : List ℕ) → contains h ps ≡ false → count_in ps (h ∷ []) ≡ 0
unfolding count_in contains
count_in_none h [] e = refl
count_in_none h (p ∷ ps) e = ground (arith, count_in_none h ps)

topological_tip :
    (fuel h : ℕ) (s : DagStorage) (degrees : Map ℕ ℕ)
    → 0 < fuel
    → get_children h s ≡ []
    → topological fuel (h ∷ []) s (h ∷ [], degrees) ≡ h ∷ []
unfolding topological release
topological_tip zero h s degrees p e = absurd (omega arith)
topological_tip (suc zero) h s degrees p e = rw e refl
topological_tip (suc (suc fuel)) h s degrees p e = rw e refl

topo_order_tip :
    (h : ℕ) (b : Block) (s : DagStorage)
    → get_children h s ≡ []
    → get_block h s ≡ some b
    → contains h b.parent_hashes ≡ false
    → topo_order (h ∷ []) s ≡ h ∷ []
unfolding topo_order in_degrees roots insert get
topo_order_tip h b s leaf found own = ground (
  arith,
  count_in_none h b.parent_hashes own,
  topological_tip (length (h ∷ []) + length (all_children s.hot_children)) h s ((h, 0) ∷ [])
      (omega arith) leaf,
)

-- The block in the sets, as a step on the sets without it.
IsClassified : ℕ → Block → GhostDag → Delta → Type 0
IsClassified h b g d =
    (d.dag.storage ≡ g.storage)
    × (contains h d.dag.blue_set ≡ true)
    × (d.dag.blue_score
        ≡ insert h (maximum (parent_scores true b.parent_hashes g) + 1) (remove h g.blue_score))
    × (contains h d.dag.red_set ≡ false)
    × (d.dag.blue_set ≡ add h (delete h g.blue_set))

reclassify_tip :
    (h : ℕ) (b : Block) (g : GhostDag)
    → get_block h g.storage ≡ some b
    → contains h b.parent_hashes ≡ false
    → is_empty (parent_scores true b.parent_hashes g) ≡ false
    → IsClassified h b g
        (reclassify (h ∷ []) (forget (h ∷ []) (record { added = []; removed = []; dag = g })))
unfolding IsClassified reclassify reclassify_one forget mark_blue
reclassify_tip h b g found own blue = ground (
  arith,
  parent_scores-without_block h b.parent_hashes g own,
  contains-delete h h g.red_set,
  contains-add h h (delete h g.blue_set),
)

fall_back_none :
    (h : ℕ) (b : Block) (g : GhostDag) (d : Delta)
    → IsClassified h b g d
    → fall_back h (h ∷ []) d ≡ d
unfolding IsClassified fall_back missed missed_red promote_all
fall_back_none h b g d c = ground arith

affected_by_tip : (h : ℕ) (s : DagStorage) → get_children h s ≡ [] → affected_by h s ≡ h ∷ []
unfolding affected_by
affected_by_tip h s e = rw e refl

-- The sets of a DAG after a block has been coloured blue after its blue parents.
pub record IsBlueTip (h : ℕ) (b : Block) (g g' : GhostDag) : Type 0 where
  pub is_blue : contains h g'.blue_set ≡ true
  pub not_red : contains h g'.red_set ≡ false
  pub score : get h g'.blue_score ≡ some (maximum (parent_scores true b.parent_hashes g) + 1)
  pub others :
      (j : ℕ)
      → j ≢ h
      → (contains j g'.blue_set ≡ contains j g.blue_set)
        × (get j g'.blue_score ≡ get j g.blue_score)

blue_tip :
    (h : ℕ) (b : Block) (g : GhostDag) (d : Delta) (g' : GhostDag)
    → IsClassified h b g d
    → g'.blue_set ≡ d.dag.blue_set
    → g'.red_set ≡ d.dag.red_set
    → g'.blue_score ≡ d.dag.blue_score
    → IsBlueTip h b g g'
unfolding IsClassified
blue_tip h b g d g' c eb er es =
    let top = maximum (parent_scores true b.parent_hashes g) + 1 in
    record {
      is_blue = ground arith;
      not_red = ground arith;
      score = ground (arith, get-insert h h top (remove h g.blue_score));
      others = λ j n. (
        ground (arith, contains-add h j (delete h g.blue_set), contains-delete h j g.blue_set),
        ground (arith, get-insert h j top (remove h g.blue_score), get-remove h j g.blue_score),
      );
    }

module _ (search : (ℕ → Ordering) → List ℕ → ℕ) where
  recompute-eq-patch :
      (h : ℕ) (b : Block) (g : GhostDag)
      → get_children h g.storage ≡ []
      → get_block h g.storage ≡ some b
      → contains h b.parent_hashes ≡ false
      → is_empty (parent_scores true b.parent_hashes g) ≡ false
      → recompute search h g
        ≡ patch_ordering search
            (reclassify (h ∷ []) (forget (h ∷ []) (record { added = []; removed = []; dag = g })))
  unfolding recompute
  recompute-eq-patch h b g leaf found own blue = cc (
    affected_by_tip h g.storage leaf,
    topo_order_tip h b g.storage leaf found own,
    fall_back_none h b g
        (reclassify (h ∷ []) (forget (h ∷ []) (record { added = []; removed = []; dag = g })))
        (reclassify_tip h b g found own blue),
  )

  patch_ordering_keeps :
      (d : Delta)
      → ((patch_ordering search d).blue_set ≡ d.dag.blue_set)
        × ((patch_ordering search d).red_set ≡ d.dag.red_set)
        × ((patch_ordering search d).blue_score ≡ d.dag.blue_score)
  unfolding patch_ordering
  patch_ordering_keeps d = (refl, refl, refl)

  -- The update for a stored block without children, which is not its own parent and has a blue
  -- parent with a score: the block is blue and not red, its score is one more than the largest score
  -- of its blue parents, and colour and score of every other blue block stay as they are.
  pub recompute-IsBlueTip :
      (h : ℕ) (b : Block) (g : GhostDag)
      → get_children h g.storage ≡ []
      → get_block h g.storage ≡ some b
      → contains h b.parent_hashes ≡ false
      → is_empty (parent_scores true b.parent_hashes g) ≡ false
      → IsBlueTip h b g (recompute search h g)
  recompute-IsBlueTip h b g leaf found own blue =
      let d =
        reclassify (h ∷ []) (forget (h ∷ []) (record { added = []; removed = []; dag = g })) in
      let (eb, er, es) = patch_ordering_keeps d in
      rw (recompute-eq-patch h b g leaf found own blue)
        (blue_tip h b g d (patch_ordering search d) (reclassify_tip h b g found own blue) eb er es)
