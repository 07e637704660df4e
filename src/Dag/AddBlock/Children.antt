-- ===== src/Dag/AddBlock/Children.antt =====
-- The children that the storage lists for a block.
use Prim.Native.Nat.{ℕ}
use mathlib.Core.Path.{◌≡◌}
use mathlib.Core.Logic.{◌≢◌, inl, inr}
use mathlib.Core.Bool.{true}
use mathlib.Core.List.{List, [], ◌∷◌, ◌++◌}
use native.Mathlib.Omega.{arith}
use iron_dag.Prelude.Tests.{◌==◌, if◌then◌else◌, Bool-cases}
use iron_dag.Prelude.Eq.{nat_eq}
use iron_dag.Prelude.Map.{get-insert}
use iron_dag.Prelude.HashSet.{contains, contains-append}
use iron_dag.Dag.Storage.{Block, DagStorage, get_children, set_children, add_block_storage}
use iron_dag.Dag.State.{GhostDag}
use iron_dag.Dag.Affected.{affected_by}
use iron_dag.Dag.AddBlock.{link_parents, store_block, insert_block, cache_genesis}

get_children-set_children :
    (p h : ℕ) (children : List ℕ) (s : DagStorage)
    → get_children h (set_children p children s) ≡ (if p == h then children else get_children h s)
unfolding get_children set_children
get_children-set_children p h children s = ground (arith, get-insert p h children s.hot_children)

link_keeps :
    (h p : ℕ) (ps : List ℕ) (s : DagStorage)
    → contains h (get_children p s) ≡ true
    → contains h (get_children p (link_parents h ps s)) ≡ true
unfolding link_parents
link_keeps h p [] s e = e
link_keeps h p (q ∷ ps) s e = elim (Bool-cases (contains h (get_children q s))) [
  | inl known ↦ ground (arith, known, link_keeps h p ps s e)
  | inr unknown ↦
      let s' = set_children q (get_children q s ++ h ∷ []) s in
      ground (
        arith,
        unknown,
        link_keeps h p ps s',
        get_children-set_children q p (get_children q s ++ h ∷ []) s,
        contains-append h (get_children q s) (h ∷ []),
      )
]

link_links :
    (h p : ℕ) (ps : List ℕ) (s : DagStorage)
    → contains p ps ≡ true
    → contains h (get_children p (link_parents h ps s)) ≡ true
unfolding link_parents contains
link_links h p [] s e = cc
link_links h p (q ∷ ps) s e = elim (Bool-cases (contains h (get_children q s))) [
  | inl known ↦ ground (arith, known, link_keeps h p ps s, link_links h p ps s)
  | inr unknown ↦
      let s' = set_children q (get_children q s ++ h ∷ []) s in
      ground (
        arith,
        unknown,
        link_keeps h p ps s',
        link_links h p ps s',
        get_children-set_children q p (get_children q s ++ h ∷ []) s,
        contains-append h (get_children q s) (h ∷ []),
      )
]

store_block-own_children : (b : Block) (s : DagStorage) → get_children b.hash (store_block b s) ≡ []
unfolding store_block
store_block-own_children b s = ground (
  arith,
  get_children-set_children b.hash b.hash []
      (link_parents b.hash b.parent_hashes (add_block_storage b s)),
)

-- A block that has been stored is a child of each of its parents other than itself, and it has no
-- children itself, also where blocks that name it as a parent were stored before it.
pub store_block-get_children :
    (b : Block) (p : ℕ) (s : DagStorage)
    → contains p b.parent_hashes ≡ true
    → p ≢ b.hash
    → (contains b.hash (get_children p (store_block b s)) ≡ true)
      × (get_children b.hash (store_block b s) ≡ [])
unfolding store_block
store_block-get_children b p s e n = ground (
  arith,
  get_children-set_children b.hash p []
      (link_parents b.hash b.parent_hashes (add_block_storage b s)),
  get_children-set_children b.hash b.hash []
      (link_parents b.hash b.parent_hashes (add_block_storage b s)),
  link_links b.hash p b.parent_hashes (add_block_storage b s),
)

pub insert_block-own_children :
    (b : Block) (g : GhostDag) → get_children b.hash (insert_block b g).storage ≡ []
unfolding insert_block
insert_block-own_children b g = store_block-own_children b (cache_genesis b g).storage

-- After a block is inserted, the incremental update finds that block alone affected, whatever
-- blocks had named it as a parent.
affected_by-insert_block :
    (b : Block) (g : GhostDag) → affected_by b.hash (insert_block b g).storage ≡ b.hash ∷ []
unfolding affected_by insert_block store_block
affected_by-insert_block b g =
    ground (arith, store_block-own_children b (cache_genesis b g).storage)
