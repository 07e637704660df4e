-- ===== src/Dag/AddBlock/Colour.antt =====
-- The colour and the score that `add_block` gives to a block that has a blue parent.
use Prim.Native.Nat.{ℕ, Ordering}
use mathlib.Core.Path.{◌≡◌, refl}
use mathlib.Core.Bool.{true, false}
use mathlib.Core.List.{List, [], ◌∷◌}
use mathlib.Core.Option.{some}
use native.Mathlib.Omega.{arith}
use iron_dag.Prelude.Lists.{any, is_empty}
use iron_dag.Prelude.Eq.{nat_eq}
use iron_dag.Prelude.HashSet.{contains}
use iron_dag.Dag.Storage.{Block, get_block}
use iron_dag.Dag.State.{GhostDag, parent_scores}
use iron_dag.Dag.Incremental.{
  is_stale, recompute, recompute_after_stale, update_blue_set_incremental,
}
use iron_dag.Dag.Incremental.Tip.{IsBlueTip, recompute-IsBlueTip}
use iron_dag.Dag.AddBlock.{insert_block, update_sets}
use iron_dag.Dag.AddBlock.Children.{insert_block-own_children}

some_blue :
    (ps : List ℕ) (g : GhostDag)
    → is_empty (parent_scores true ps g) ≡ false
    → any (λ p. contains p g.blue_set) ps ≡ true
unfolding parent_scores
some_blue [] g e = cc
some_blue (p ∷ ps) g e = ground (arith, some_blue ps g)

any_none : (ps : List ℕ) → any (λ p. contains {A = ℕ} p []) ps ≡ false
unfolding contains
any_none [] = refl
any_none (p ∷ ps) = any_none ps

blue_nonempty : (ps blue : List ℕ) → any (λ p. contains p blue) ps ≡ true → is_empty blue ≡ false
blue_nonempty ps [] e = cc (any_none ps)
blue_nonempty ps (x ∷ blue) e = refl

not_stale :
    (ps : List ℕ) (g : GhostDag)
    → is_empty (parent_scores true ps g) ≡ false
    → is_stale ps g ≡ false
unfolding is_stale
not_stale ps g e = ground (arith, some_blue ps g e)

module _ (search : (ℕ → Ordering) → List ℕ → ℕ) where
  update-eq-recompute :
      (h genesis : ℕ) (x b : Block) (g : GhostDag)
      → g.genesis_hash ≡ some genesis
      → get_block genesis g.storage ≡ some x
      → get_block h g.storage ≡ some b
      → is_empty (parent_scores true b.parent_hashes g) ≡ false
      → update_sets search h g ≡ recompute search h g
  unfolding update_sets update_blue_set_incremental recompute_after_stale
  update-eq-recompute h genesis x b g eg ex eb blue = ground (
    arith,
    not_stale b.parent_hashes g blue,
    blue_nonempty b.parent_hashes g.blue_set (some_blue b.parent_hashes g blue),
  )

  -- A block is inserted whose parents are other blocks and include a blue one with a score; the
  -- storage has it then, and the genesis block. Then the update colours it blue and not red, with
  -- one more than the largest score of its blue parents, and keeps colour and score of every other
  -- blue block.
  pub update_sets-IsBlueTip :
      (b x : Block) (genesis : ℕ) (g : GhostDag)
      → (insert_block b g).genesis_hash ≡ some genesis
      → get_block genesis (insert_block b g).storage ≡ some x
      → get_block b.hash (insert_block b g).storage ≡ some b
      → contains b.hash b.parent_hashes ≡ false
      → is_empty (parent_scores true b.parent_hashes (insert_block b g)) ≡ false
      → IsBlueTip b.hash b (insert_block b g) (update_sets search b.hash (insert_block b g))
  update_sets-IsBlueTip b x genesis g eg ex eb own blue =
      rw (update-eq-recompute b.hash genesis x b (insert_block b g) eg ex eb blue) (
        recompute-IsBlueTip search b.hash b (insert_block b g) (insert_block-own_children b g) eb
          own blue)
