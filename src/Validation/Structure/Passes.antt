-- ===== src/Validation/Structure/Passes.antt =====
-- What a block has that passes validate_block_structure of
-- irondag-blockchain/src/blockchain/mod.rs.
use Prim.Native.Nat.{ℕ, ◌≤◌}
use mathlib.Core.Path.{◌≡◌}
use mathlib.Core.Bool.{Bool}
use mathlib.Core.List.{List}
use mathlib.Core.Option.{Option, some}
use iron_dag.Validation.{Block, max_block_size}

module _ (serialized_size : Block → Option ℕ) where
  -- The size by which a block is measured.
  abbrev pub HasSize : Block → Type 0
  HasSize b = (size : ℕ) × (serialized_size b ≡ some size) × (size ≤ max_block_size)
