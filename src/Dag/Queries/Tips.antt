-- ===== src/Dag/Queries/Tips.antt =====
-- What `get_tips` of irondag-blockchain/src/consensus/mod.rs finds: the blocks without children, or
-- the genesis block.
use Prim.Native.Nat.{ℕ, suc, ◌+◌, ◌<◌, min}
use mathlib.Core.Path.{◌≡◌}
use mathlib.Core.List.{List, [], ◌∷◌}
use iron_dag.Prelude.Tests.{if◌then◌else◌}
use iron_dag.Prelude.Lists.{length, is_empty}
use iron_dag.Dag.Storage.{get_children}
use iron_dag.Dag.State.{GhostDag}

-- How many of the hashes have no children.
pub childless : List ℕ → GhostDag → ℕ
childless [] g = 0
childless (h ∷ hs) g =
    let rest = childless hs g in if is_empty (get_children h g.storage) then suc rest else rest

abbrev pub AreChildless : GhostDag → List ℕ → Type 0
AreChildless g [] = Unit
AreChildless g (h ∷ hs) = (get_children h g.storage ≡ []) × AreChildless g hs

abbrev AreLeaves : GhostDag → List (ℕ × ℕ) → Type 0
AreLeaves g [] = Unit
AreLeaves g (t ∷ ts) = (get_children t.0 g.storage ≡ []) × AreLeaves g ts

-- What the tips are where some block is coloured and there is a genesis block.
abbrev pub AreTips : GhostDag → ℕ → List ℕ → Type 0
AreTips g genesis tips =
    let leaves = childless g.blue_set g + childless g.red_set g in
    (0 < leaves → AreChildless g tips × (length tips ≡ min g.k leaves))
    × (leaves ≡ 0 → tips ≡ genesis ∷ [])
